-- ===== src/Media/Hub.antt =====
-- src/media/hub.cpp: one source, any number of streamers. Each operation is one critical section of
-- the mutex. The pump thread is its two effects: `on_nal` for each NAL unit, and `pump_ends`.
pub mod Broadcast
pub mod Members
pub mod Prescan
pub mod Threads
pub mod Pump
use veda_rtsp.Base.{
  ℕ, zero, suc, ◌+◌, ◌/◌, ◌||◌, ◌&&◌, Bool, true, false, not, if◌then◌else◌, ltb, ◌==◌, Option,
  none, some, ◌>>=◌, List, [], ◌∷◌, ◌++◌, Bytes, ℤ, pos, negsuc, bit_and, get_or, u32, bytes_eq,
  codes,
}
use veda_rtsp.Base64.{base64_encode}
use veda_rtsp.Rtp.Streamer.{Streamer, send_nal, advance_timestamp}
use veda_rtsp.Media.AnnexB.{Stream, read_nal}

-- A streamer with its identity: what the shared pointers are compared by.
pub record Subscriber : Type 0 where
  pub id : ℕ
  pub streamer : Streamer

pub record Hub : Type 0 where
  pub subscribers : List Subscriber
  pub running : Bool
  pub sps : Bytes
  pub pps : Bytes
  pub ts_increment : ℕ

pub record SourceConfig : Type 0 where
  pub source : Bytes
  pub width : ℤ
  pub height : ℤ
  pub fps : ℤ

-- The members' defaults.
abbrev pub default_config : Bytes → SourceConfig
default_config source = record { source = source; width = pos 640; height = pos 480; fps = pos 30 }

-- `cfg_.fps > 0 ? cfg_.fps : 30`
abbrev pub frame_rate : ℤ → ℕ
frame_rate (pos zero) = 30
frame_rate (pos (suc n)) = suc n
frame_rate (negsuc n) = 30

-- The members as the constructor's list starts them.
unfoldable pub make_hub : ℤ → Hub
make_hub fps = record {
  subscribers = [];
  running = false;
  sps = [];
  pps = [];
  ts_increment = 90000 / frame_rate fps;
}

unfoldable pub nal_type_of : Bytes → ℕ
nal_type_of nal = bit_and (get_or nal 0 0) 0x1F

abbrev pub is_unset : Bytes → Bool
is_unset [] = true
is_unset (c ∷ cs) = false

-- The first SPS and the first PPS are kept.
unfoldable pub cache_parameter_set : Bytes → Hub → Hub
unfolding nal_type_of
cache_parameter_set nal h =
    if nal_type_of nal == 7 && is_unset h.sps
    then record h { sps = nal }
    else if nal_type_of nal == 8 && is_unset h.pps
    then record h { pps = nal }
    else h

-- A slice of a P frame or of an IDR frame.
unfoldable pub ends_frame : Bytes → Bool
unfolding nal_type_of
ends_frame nal = nal_type_of nal == 1 || nal_type_of nal == 5

abbrev pub next_frame : Bool → ℕ → Streamer → Streamer
next_frame true increment s = advance_timestamp increment s
next_frame false increment s = s

-- The loop over the subscribers: their new states, and the packets given to each one's socket.
-- `sends id` says which of the calls of `send` succeed on the socket of the subscriber `id`.
unfoldable pub broadcast :
    (ℕ → ℕ → Bool) → ℕ → Bytes → List Subscriber → Option (List Subscriber × List (ℕ × List Bytes))
unfolding ends_frame
broadcast sends increment nal [] = some ([], [])
broadcast sends increment nal (m ∷ ms) =
    let others = broadcast sends increment nal ms in
    (send_nal (sends m.id) m.streamer nal >>= λ r.
    (others >>= λ rest. some (
      record m { streamer = next_frame (ends_frame nal) increment r.0 } ∷ rest.0,
      (m.id, r.1) ∷ rest.1,
    )))

unfoldable pub on_nal : (ℕ → ℕ → Bool) → Bytes → Hub → Option (Hub × List (ℕ × List Bytes))
unfolding cache_parameter_set broadcast
on_nal sends [] h = some (h, [])
on_nal sends (c ∷ cs) h =
    (broadcast sends h.ts_increment (c ∷ cs) h.subscribers >>= λ r.
    some (record (cache_parameter_set (c ∷ cs) h) { subscribers = r.0 }, r.1))

-- `starts` is the answer of the source when it is opened; a null streamer is `none`.
unfoldable pub subscribe : Bool → Option Subscriber → Hub → Hub × Bool
subscribe starts none h = (h, false)
subscribe starts (some m) h =
    if h.running || starts
    then (record h { subscribers = h.subscribers ++ (m ∷ []); running = true }, true)
    else (h, false)

-- `std::remove` and `erase`
unfoldable pub without : ℕ → List Subscriber → List Subscriber
without id [] = []
without id (m ∷ ms) = if m.id == id then without id ms else m ∷ without id ms

abbrev pub nobody : List Subscriber → Bool
nobody [] = true
nobody (m ∷ ms) = false

unfoldable pub unsubscribe : ℕ → Hub → Hub
unfolding without
unsubscribe id h =
    let left = without id h.subscribers in
    record h { subscribers = left; running = if nobody left then false else h.running }

-- The end of `pump`: the source has ended or failed.
unfoldable pub pump_ends : Hub → Hub
pump_ends h = record h { running = false }

abbrev pub cache_all : List Bytes → Hub → Hub
cache_all [] h = h
cache_all (nal ∷ nals) h = cache_all nals (cache_parameter_set nal h)

-- The loop of `prescan_parameter_sets` on the opened file: `fuel` is kMaxNals less the NAL units
-- scanned, and the bytes are the reader's buffer.
unfoldable pub prescan : ℕ → Bytes → Stream → Hub → Hub
unfolding cache_parameter_set
prescan zero buffer file h = h
prescan (suc fuel) buffer file h =
    let r = read_nal buffer file in
    let cached = cache_all r.nals h in
    let again = prescan fuel r.buffer r.rest cached in
    if is_unset h.sps || is_unset h.pps then if r.more then again else cached else h

-- The first argument is what `fopen` gives; kMaxNals is 64.
unfoldable pub prescan_parameter_sets : Option Stream → Hub → Hub
unfolding prescan
prescan_parameter_sets none h = h
prescan_parameter_sets (some file) h = prescan 64 [] file h

-- The constructor.
unfoldable pub open_hub : SourceConfig → Option Stream → Hub
unfolding prescan_parameter_sets make_hub
open_hub cfg opened =
    if not (bytes_eq cfg.source (codes "camera"))
    then prescan_parameter_sets opened (make_hub cfg.fps)
    else make_hub cfg.fps

unfoldable pub sprop_parameter_sets : Hub → Bytes
sprop_parameter_sets h =
    if is_unset h.sps || is_unset h.pps
    then []
    else base64_encode h.sps ++ b',' ∷ base64_encode h.pps

-- The destructor: the pump thread sees `running_` and returns.
unfoldable pub destroy : Hub → Hub
destroy h = record h { running = false }
