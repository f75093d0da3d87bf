-- ===== src/Rtsp/Session/Handlers.antt =====
-- session.cpp: the table of allowed methods, the dispatch and the handlers.
pub mod Machine
pub mod Subscription
pub mod Frame
use veda_rtsp.Base.{
  ℕ, Bool, true, false, not, if◌then◌else◌, Option, none, some, List, [], ◌∷◌, ◌++◌, Bytes, codes,
  bytes_eq, ℤ, pos,
}
use veda_rtsp.Sdp
use veda_rtsp.Rtsp.Response
use veda_rtsp.Rtsp.Parser.{Headers, Method, Request, header}
use veda_rtsp.Rtsp.Session.Transport.{
  Ports, generate_session_id, parse_transport, session_id_of, port_of,
}

pub data State : Type 0 where
  init ready playing closed : State

-- A streamer is known by a number: the identity of the shared object.
pub record Session : Type 0 where
  pub client_ip : Bytes
  pub has_hub : Bool  -- `hub_` is not null
  pub rx_buffer : Bytes
  pub state : State
  pub session_id : Bytes
  pub ports : Ports
  pub streamer : Option ℕ

unfoldable pub make_session : Bytes → Bool → Session
make_session client_ip has_hub = record {
  client_ip = client_ip;
  has_hub = has_hub;
  rx_buffer = [];
  state = init;
  session_id = [];
  ports = record { rtp = pos 0; rtcp = pos 0 };
  streamer = none;
}

-- What a session does to the world: a response, the UDP connect of a new streamer, and the calls
-- of the hub with their answers.
pub data Action : Type 0 where
  send : Bytes → Action
  connect : ℕ → Bytes → ℕ → Bool → Action
  subscribe : ℕ → Bool → Action
  unsubscribe : ℕ → Action

-- What the world answers while one request is handled.
pub record Answers : Type 0 where
  pub draw : ℕ  -- the 32 random bits of a session id
  pub streamer_made : ℕ
  pub connects : Bool
  pub subscribes : Bool
  pub sprop : Bytes  -- `hub_->sprop_parameter_sets()`

-- The session behind a request, what it has done, and the response that is still to be sent.
pub record Reply : Type 0 where
  pub session : Session
  pub actions : List Action
  pub response : Bytes

abbrev pub answer : Session → Bytes → Reply
answer s response = record { session = s; actions = []; response = response }

abbrev is_setup_state : State → Bool
is_setup_state init = true
is_setup_state ready = true
is_setup_state _ = false

abbrev is_ready : State → Bool
is_ready ready = true
is_ready _ = false

abbrev is_playing : State → Bool
is_playing playing = true
is_playing _ = false

abbrev is_teardown_state : State → Bool
is_teardown_state ready = true
is_teardown_state playing = true
is_teardown_state _ = false

unfoldable pub method_allowed : State → Method → Bool
method_allowed st Method.options = true
method_allowed st Method.get_parameter = true
method_allowed st Method.describe = true
method_allowed st Method.setup = is_setup_state st
method_allowed st Method.play = is_ready st
method_allowed st Method.pause = is_playing st
method_allowed st Method.teardown = is_teardown_state st
method_allowed st Method.unknown = false

-- The hub is left before the streamer is let go.
unfoldable pub stop_streaming : Session → Session × List Action
stop_streaming s = elim s.streamer [
  | none ↦ (s, [])
  | some id ↦ (record s { streamer = none }, if s.has_hub then unsubscribe id ∷ [] else [])
]

unfoldable pub on_disconnect : Session → Session × List Action
unfolding stop_streaming
on_disconnect s = let (s', actions) = stop_streaming s in (record s' { state = closed }, actions)

unfoldable pub handle_describe : Answers → Session → Request → Reply
handle_describe w s req =
    let info : Sdp.VideoStreamInfo = record {
      payload_type = pos 96;
      clock_rate = pos 90000;
      sprop_parameter_sets = if s.has_hub then w.sprop else [];
    } in
    answer s (Response.describe req.cseq (Sdp.build info) (req.uri ++ codes "/"))

abbrev pub is_empty : Bytes → Bool
is_empty [] = true
is_empty (c ∷ cs) = false

-- The module's parameter is the order in which the header map is walked.
module _ (scan : Headers → Headers) where
  -- Behind `parse_transport`, which has written the ports.
  unfoldable pub setup_ports : Answers → Session → Request → Bool → Reply
  setup_ports w s req true =
      let id = if is_empty s.session_id then generate_session_id w.draw else s.session_id in
      answer (record s { state = ready; session_id = id })
        (Response.setup req.cseq id s.ports.rtp s.ports.rtcp (pos 6970) (pos 6971))
  setup_ports w s req false =
      answer s (Response.error req.cseq (pos 461) (codes "Unsupported Transport"))

  unfoldable pub handle_setup : Answers → Session → Request → Reply
  unfolding setup_ports
  handle_setup w s req = elim (header scan req (codes "Transport")) [
    | none ↦ answer s (Response.error req.cseq (pos 400) (codes "Bad Request - No Transport"))
    | some transport ↦
        let (ports, accepted) = parse_transport transport s.ports in
        setup_ports w (record s { ports = ports }) req accepted
  ]

  unfoldable pub session_header_matches : Session → Request → Bool
  session_header_matches s req = elim (header scan req (codes "Session")) [
    | none ↦ false
    | some value ↦ bytes_eq (session_id_of value) s.session_id
  ]

  abbrev not_found : Session → Request → Reply
  not_found s req = answer s (Response.error req.cseq (pos 454) (codes "Session Not Found"))

  -- The response goes out before the hub is asked.
  unfoldable pub start_streaming : Answers → Session → Request → Action → Reply
  start_streaming w s req connected =
      let sent = connected ∷ send (Response.play req.cseq s.session_id) ∷ [] in
      if s.has_hub
      then if w.subscribes
        then record {
          session = record s { streamer = some w.streamer_made; state = playing };
          actions = sent ++ (subscribe w.streamer_made true ∷ []);
          response = [];
        }
        else record {
          session = s;
          actions = sent ++ (subscribe w.streamer_made false ∷ []);
          response = [];
        }
      else record { session = s; actions = sent; response = [] }

  unfoldable pub handle_play : Answers → Session → Request → Reply
  unfolding start_streaming
  handle_play w s req =
      let connected = connect w.streamer_made s.client_ip (port_of s.ports.rtp) w.connects in
      if not (session_header_matches s req)
      then not_found s req
      else if w.connects
      then start_streaming w s req connected
      else record {
        session = s;
        actions = connected ∷ [];
        response = Response.error req.cseq (pos 500) (codes "Internal Server Error");
      }

  unfoldable pub handle_pause : Session → Request → Reply
  unfolding stop_streaming
  handle_pause s req =
      let (s', actions) = stop_streaming s in
      if not (session_header_matches s req) then not_found s req else record {
        session = record s' { state = ready };
        actions = actions;
        response = Response.ok_session req.cseq s'.session_id;
      }

  unfoldable pub handle_teardown : Session → Request → Reply
  unfolding stop_streaming
  handle_teardown s req =
      let (s', actions) = stop_streaming s in
      if not (session_header_matches s req) then not_found s req else record {
        session = record s' { state = closed };
        actions = actions;
        response = Response.teardown req.cseq s'.session_id;
      }

  unfoldable pub handle_get_parameter : Session → Request → Reply
  handle_get_parameter s req = answer s (
      if is_empty s.session_id
      then Response.ok req.cseq
      else Response.ok_session req.cseq s.session_id)

  -- The second `switch` of `handle`; UNKNOWN does not get here.
  unfoldable pub dispatch : Method → Answers → Session → Request → Reply
  unfolding handle_describe handle_setup handle_play handle_pause handle_teardown
      handle_get_parameter
  dispatch Method.options w s req = answer s (Response.options req.cseq)
  dispatch Method.describe w s req = handle_describe w s req
  dispatch Method.setup w s req = handle_setup w s req
  dispatch Method.play w s req = handle_play w s req
  dispatch Method.pause w s req = handle_pause s req
  dispatch Method.teardown w s req = handle_teardown s req
  dispatch Method.get_parameter w s req = handle_get_parameter s req
  dispatch Method.unknown w s req =
      answer s (Response.error req.cseq (pos 500) (codes "Internal Server Error"))

  abbrev pub is_unknown : Method → Bool
  is_unknown Method.unknown = true
  is_unknown _ = false

  unfoldable pub handle : Answers → Session → Request → Reply
  unfolding dispatch method_allowed
  handle w s req =
      if is_unknown req.method
      then answer s (Response.error req.cseq (pos 501) (codes "Not Implemented"))
      else if not (method_allowed s.state req.method)
      then answer s (Response.error req.cseq (pos 455) (codes "Method Not Valid in This State"))
      else dispatch req.method w s req
