-- ===== src/Net/Tcp/Transfer.antt =====
-- src/net/tcp_socket.cpp, `TcpConnection::write`: the bytes that go out, and the result.
use veda_rtsp.Base.{
  ℕ, zero, suc, ◌≤◌, ◌≡◌, ◌≢◌, refl, sym, subst, Bool, true, false, none, some, List, [], ◌∷◌, ◌++◌,
  Bytes, length, take, drop, take-append-drop, length-drop, append_assoc, ℤ, pos, negsuc,
  Option-cases, inl, inr, ◌⊎◌, arith, ap, ◌∙◌,
}
use veda_rtsp.Net.Tcp.{WriteAnswer, took, write_interrupted, write_failed, write_loop, write}

-- What has gone out when the loop ends: everything, or a front part and an error.
abbrev Sent : Bytes → Bytes × Bool → Type 0
Sent bytes (sent, true) = sent ≡ bytes
Sent bytes (sent, false) = (rest : Bytes) × (bytes ≡ sent ++ rest) × (rest ≢ [])

Sent-after :
    (n : ℕ) (bytes : Bytes) (r : Bytes × Bool)
    → Sent (drop n bytes) r
    → Sent bytes (take n bytes ++ r.0, r.1)
Sent-after n bytes (sent, true) h = rw h (take-append-drop n bytes)
Sent-after n bytes (sent, false) (rest, e, more) = (
  rest,
  sym (take-append-drop n bytes)
      ∙ (ap (◌++◌ (take n bytes)) e ∙ sym (append_assoc (take n bytes) sent rest)),
  more,
)

write_loop-Sent :
    (answers : List WriteAnswer) (bytes : Bytes) (r : Bytes × Bool)
    → write_loop answers bytes ≡ some r
    → Sent bytes r
unfolding write_loop
write_loop-Sent answers [] r e =
    let e' : ◌≡◌ {A = Bytes × Bool} ([], true) r = cc in
    subst (λ (x : Bytes × Bool). Sent [] x) e' refl
write_loop-Sent [] (b ∷ bs) r e = cc
write_loop-Sent (write_interrupted ∷ answers) (b ∷ bs) r e = write_loop-Sent answers (b ∷ bs) r e
write_loop-Sent (write_failed ∷ answers) (b ∷ bs) r e =
    let e' : ◌≡◌ {A = Bytes × Bool} ([], false) r = cc in
    subst (λ (x : Bytes × Bool). Sent (b ∷ bs) x) e' (b ∷ bs, refl, λ nil. cc)
write_loop-Sent (took n ∷ answers) (b ∷ bs) r e =
    elim (Option-cases (write_loop answers (drop n (b ∷ bs)))) [
      | inl nothing ↦ absurd (ground (arith, nothing))
      | inr ((sent, ok), runs) ↦
          let e' : ◌≡◌ {A = Bytes × Bool} (take n (b ∷ bs) ++ sent, ok) r = ground (arith, runs) in
          subst (λ (x : Bytes × Bool). Sent (b ∷ bs) x) e'
            (Sent-after n (b ∷ bs) (sent, ok)
              (write_loop-Sent answers (drop n (b ∷ bs)) (sent, ok) runs))
    ]

-- How many answers took a byte at least.
abbrev pub progress : List WriteAnswer → ℕ
progress [] = 0
progress (took zero ∷ answers) = progress answers
progress (took (suc n) ∷ answers) = suc (progress answers)
progress (write_interrupted ∷ answers) = progress answers
progress (write_failed ∷ answers) = progress answers

-- Some answer is an error.
abbrev pub fails : List WriteAnswer → Bool
fails [] = false
fails (write_failed ∷ answers) = true
fails (answer ∷ answers) = fails answers

write_loop-fails :
    (answers : List WriteAnswer) (bytes sent : Bytes)
    → write_loop answers bytes ≡ some (sent, false)
    → fails answers ≡ true
unfolding write_loop
write_loop-fails answers [] sent e = cc
write_loop-fails [] (b ∷ bs) sent e = cc
write_loop-fails (write_interrupted ∷ answers) (b ∷ bs) sent e =
    write_loop-fails answers (b ∷ bs) sent e
write_loop-fails (write_failed ∷ answers) (b ∷ bs) sent e = refl
write_loop-fails (took n ∷ answers) (b ∷ bs) sent e =
    elim (Option-cases (write_loop answers (drop n (b ∷ bs)))) [
      | inl nothing ↦ absurd (ground (arith, nothing))
      | inr ((out, true), runs) ↦ absurd (ground (arith, runs))
      | inr ((out, false), runs) ↦ write_loop-fails answers (drop n (b ∷ bs)) out runs
    ]

write_loop_ends :
    (answers : List WriteAnswer) (bytes : Bytes)
    → length bytes ≤ progress answers
    → write_loop answers bytes ≢ none
unfolding write_loop
write_loop_ends answers [] h = λ e. cc
write_loop_ends [] (b ∷ bs) h = absurd (omega arith)
write_loop_ends (write_interrupted ∷ answers) (b ∷ bs) h = write_loop_ends answers (b ∷ bs) h
write_loop_ends (write_failed ∷ answers) (b ∷ bs) h = λ e. cc
write_loop_ends (took zero ∷ answers) (b ∷ bs) h =
    ground (arith, write_loop_ends answers (b ∷ bs) h)
write_loop_ends (took (suc n) ∷ answers) (b ∷ bs) h =
    ground (arith, write_loop_ends answers (drop n bs) (omega (arith, length-drop n bs)))

write_loop_stops :
    (answers : List WriteAnswer) (bytes : Bytes)
    → fails answers ≡ true
    → write_loop answers bytes ≢ none
unfolding write_loop
write_loop_stops answers [] h = λ e. cc
write_loop_stops [] (b ∷ bs) h = absurd cc
write_loop_stops (write_interrupted ∷ answers) (b ∷ bs) h = write_loop_stops answers (b ∷ bs) h
write_loop_stops (write_failed ∷ answers) (b ∷ bs) h = λ e. cc
write_loop_stops (took n ∷ answers) (b ∷ bs) h =
    ground (arith, write_loop_stops answers (drop n (b ∷ bs)) h)

-- When the system takes a byte at least as often as there are bytes, or some answer of it is an
-- error, `write` returns, however often the system interrupts: either the length, with every byte
-- gone out in order, or -1 with a front part of the bytes gone out, not all of them, and then some
-- answer of the system is an error.
pub write_delivers :
    (answers : List WriteAnswer) (bytes : Bytes)
    → (length bytes ≤ progress answers) ⊎ (fails answers ≡ true)
    → (sent : Bytes) × (result : ℤ) × (write answers bytes ≡ some (sent, result))
      × (((result ≡ pos (length bytes)) × (sent ≡ bytes))
          ⊎ ((result ≡ negsuc 0)
              × (fails answers ≡ true)
              × ((rest : Bytes) × (bytes ≡ sent ++ rest) × (rest ≢ []))))
unfolding write
write_delivers answers bytes h = elim (Option-cases (write_loop answers bytes)) [
  | inl nothing ↦ elim h [
    | inl enough ↦ absurd (write_loop_ends answers bytes enough nothing)
    | inr fail ↦ absurd (write_loop_stops answers bytes fail nothing)
  ]
  | inr ((sent, true), runs) ↦ (
    sent,
    pos (length bytes),
    rw runs refl,
    inl (refl, write_loop-Sent answers bytes (sent, true) runs),
  )
  | inr ((sent, false), runs) ↦ (
    sent,
    negsuc 0,
    rw runs refl,
    inr (
      refl,
      write_loop-fails answers bytes sent runs,
      write_loop-Sent answers bytes (sent, false) runs,
    ),
  )
]
