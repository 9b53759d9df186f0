-- ===== src/Conversation.antt =====
-- A conversation over TCPS: TCPS/Client/TCPSC.cpp captures sound, TCPS/Server/TCPS.cpp relays it, and
-- another TCPS/Client/TCPSC.cpp plays it.
pub mod Pieces
mod Examples
use mathlib.Core.List.{flatten, map-map}
use eng_project.Base.{
  ℕ, ◌≡◌, ◌↔◌, refl, sym, ap, ◌∙◌, Bool, true, false, List, [], ◌∷◌, ◌++◌, append-nil, map, All, ℤ,
  is_minus_one, is_pos, ◌==◌, count, payload, arith,
}
use eng_project.Client.Event
use eng_project.Client.Event.{eq_ℤ}
use eng_project.Client.Capture
use eng_project.Client.Capture.{
  Reading, frames_read, recovered, broken, forward, handle_reading, capture_round, capture_loop,
  audio_cap,
}
use eng_project.Client.Capture.Sound.{sound, HasSound, captured}
use eng_project.Client.Playback
use eng_project.Client.Playback.{whole_frames, play_audio}
use eng_project.Client.Playback.Stream
use eng_project.Client.Playback.Stream.{plays, play_audio-fine}
use eng_project.Relay.Handler
use eng_project.Relay.Handler.{
  Send, Turn, Handled, waiting, returned, after_events, broadcast, handle_c,
}
use eng_project.Relay.Handler.Laws.{IsData}
use eng_project.Relay.System.Ownership.{occurs}
use eng_project.Relay.System.Delivery.{messages, messages-append, messages-broadcast}
use eng_project.Conversation.Pieces.{IsWhole, played-iff_IsWhole}

-- A round that goes well: between 1 and 1024 frames are captured, and both `send` succeed.
abbrev pub IsSpoken : Capture.Round → Type 0
IsSpoken r = HasSound r.reading × (is_minus_one r.sent ≡ false) × (is_minus_one r.shown ≡ false)

abbrev pub sound_of : Capture.Round → List ℕ
sound_of r = sound r.reading

abbrev pub spoken : List Capture.Round → List ℕ
spoken rounds = flatten (map sound_of rounds)

module _ (sockfd view : ℤ) (here : eq_ℤ sockfd sockfd ≡ true)
    (differ : eq_ℤ view sockfd ≡ false) where
  reading-spoken :
      (r : Capture.Round) (buffer : List ℕ) (reading : Reading)
      → HasSound reading
      → is_minus_one r.sent ≡ false
      → is_minus_one r.shown ≡ false
      → ((handle_reading sockfd view r buffer reading).out ≡ false)
        × (Event.messages sockfd (handle_reading sockfd view r buffer reading).events
            ≡ sound reading ∷ [])
  unfolding handle_reading forward Event.messages
  reading-spoken r buffer (frames_read n bytes) h sent shown =
      rw (sent, shown, here, differ) (refl, ap (λ c. c ∷ []) (captured n bytes buffer h.2 h.1))
  reading-spoken r buffer (recovered n) h sent shown = absurd h
  reading-spoken r buffer broken h sent shown = absurd h

  loop-spoken :
      (buffer : List ℕ) (rounds : List Capture.Round)
      → All IsSpoken rounds
      → Event.messages sockfd (capture_loop sockfd view rounds buffer).events ≡ map sound_of rounds
  unfolding capture_loop capture_round Event.messages
  loop-spoken buffer [] h = refl
  loop-spoken buffer (r ∷ rs) h =
      let now : Capture.Capturing = handle_reading sockfd view r buffer r.reading in
      let (goes_on, says) = reading-spoken r buffer r.reading h.0.0 h.0.1 h.0.2 in
      rw goes_on
        (Event.messages-append sockfd now.events _ ∙ rw (says, loop-spoken now.buffer rs h.1))

  audio_cap-spoken :
      (buffer : List ℕ) (rounds : List Capture.Round)
      → All IsSpoken rounds
      → Event.messages sockfd (audio_cap true sockfd view buffer rounds).events
        ≡ map sound_of rounds
  unfolding audio_cap Event.messages
  audio_cap-spoken buffer rounds h =
      Event.messages-append sockfd (capture_loop sockfd view rounds buffer).events _
      ∙ (append-nil _ ∙ loop-spoken buffer rounds h)

-- What a thread of the server has done so far.
abbrev pub events_of : Handled → List Handler.Event
events_of (waiting es) = es
events_of (returned es clients) = es

abbrev pub bytes_of : Turn → List ℕ
bytes_of t = payload t.received

events-after :
    (es : List Handler.Event) (h : Handled) → events_of (after_events es h) ≡ es ++ events_of h
events-after es (waiting fs) = refl
events-after es (returned fs clients) = refl

handle_c-relays :
    (send_result : Send) (fd g : ℕ) (turns : List Turn)
    → (fd == g) ≡ false
    → All IsData turns
    → All (λ t. occurs g t.clients ≡ 1) turns
    → messages g (events_of (handle_c send_result fd turns)) ≡ map bytes_of turns
unfolding handle_c messages
handle_c-relays send_result fd g [] other in_time once = refl
handle_c-relays send_result fd g (t ∷ turns) other in_time once =
    rw (in_time.0, handle_c)
      (ap (messages g) (
          events-after (broadcast send_result (payload t.received) fd t.clients)
            (handle_c send_result fd turns))
        ∙ (messages-append g (broadcast send_result (payload t.received) fd t.clients) _
            ∙ rw (
              messages-broadcast send_result (payload t.received) fd g t.clients,
              other,
              once.0,
              handle_c-relays send_result fd g turns other in_time.1 once.1,
            )))

abbrev pub piece : Playback.Round → List ℕ
piece r = payload r.received

module _ (sockfd view view' : ℤ) (here : eq_ℤ sockfd sockfd ≡ true)
    (differ : eq_ℤ view sockfd ≡ false) (self : eq_ℤ view' view' ≡ true) (send_result : Send)
    (fd g : ℕ) (other : (fd == g) ≡ false) where
  -- What is said is heard if no piece is cut within a frame: let a client capture between 1 and 1024
  -- frames in each round and send them, to the server and its visualizer, without an error; let
  -- those bytes reach its thread of the server in order, in any pieces; let what that thread sends to
  -- another client, which stands once in the list all the time, reach that client in order, again in
  -- any pieces but empty ones, in rounds in which a write fails at most by an underrun that is recovered from and
  -- the visualizer takes the bytes. Then the visualizer of this client is sent exactly the captured
  -- bytes; and the bytes that it gives to its sound device are exactly the captured ones if, and
  -- only if, the length of each piece that its `recv` returned is a multiple of 4.
  pub spoken-heard :
      (buffer : List ℕ) (rounds : List Capture.Round) (turns : List Turn)
      (heard : List Playback.Round)
      → All IsSpoken rounds
      → All IsData turns
      → All (λ t. occurs g t.clients ≡ 1) turns
      → All Stream.IsFine heard
      → flatten (map bytes_of turns)
        ≡ flatten (Event.messages sockfd (audio_cap true sockfd view buffer rounds).events)
      → flatten (map piece heard) ≡ flatten (messages g (events_of (handle_c send_result fd turns)))
      → (flatten (Event.messages view' (play_audio true view' heard).events) ≡ spoken rounds)
        × ((flatten (plays (play_audio true view' heard).events) ≡ spoken rounds)
            ↔ All IsWhole (map piece heard))
  spoken-heard buffer rounds turns heard said in_time once fine up down =
      let (played, shown, going) = play_audio-fine view' self heard fine in
      let all : flatten (map piece heard) ≡ spoken rounds =
        down
        ∙ (ap flatten (handle_c-relays send_result fd g turns other in_time once)
            ∙ (up ∙ ap flatten (audio_cap-spoken sockfd view here differ buffer rounds said))) in
      let sounds =
        ap flatten (played ∙ sym (map-map {A = Playback.Round} whole_frames piece heard)) in
      let whole = played-iff_IsWhole (map piece heard) in
      (
        ap flatten shown ∙ all,
        (λ e. whole.0 (sym sounds ∙ (e ∙ sym all)), λ pieces. sounds ∙ (whole.1 pieces ∙ all)),
      )
