-- ===== src/Conversation/Examples.antt =====
-- A conversation of two frames, in pieces of 3 and 5 bytes and then of 6 and 2, and its theorem there.
use mathlib.Core.List.{flatten}
use eng_project.Base.{ℕ, ◌≡◌, ◌↔◌, refl, inl, true, List, [], ◌∷◌, map, All, pos, got, arith}
use eng_project.Client.Event
use eng_project.Client.Capture
use eng_project.Client.Capture.{
  frames_read, audio_cap, capture_loop, capture_round, handle_reading, forward,
}
use eng_project.OnlineAv.Fragment.{overlay}
use eng_project.Client.Playback
use eng_project.Client.Playback.{play_audio}
use eng_project.Client.Playback.Stream
use eng_project.Client.Playback.Stream.{plays}
use eng_project.Relay.Handler.{Send, Turn, handle_c}
use eng_project.Relay.System.Ownership.{occurs}
use eng_project.Relay.System.Delivery.{messages}
use eng_project.Conversation.{IsSpoken, spoken, bytes_of, events_of, piece, spoken-heard}
use eng_project.Conversation.Pieces.{IsWhole}

abbrev sent_all : Send
sent_all fd bytes = pos 1

abbrev speech : List Capture.Round
speech =
    record { reading = frames_read 1 (1 ∷ 2 ∷ 3 ∷ 4 ∷ []); now = 77; sent = pos 4; shown = pos 12 }
    ∷ record {
      reading = frames_read 1 (5 ∷ 6 ∷ 7 ∷ 8 ∷ []);
      now = 78;
      sent = pos 4;
      shown = pos 12;
    }
    ∷ []

abbrev turns : List Turn
turns =
    record { received = got (1 ∷ 2 ∷ 3 ∷ []); clients = 7 ∷ 8 ∷ [] }
    ∷ record { received = got (4 ∷ 5 ∷ 6 ∷ 7 ∷ 8 ∷ []); clients = 8 ∷ 7 ∷ [] }
    ∷ []

abbrev round : List ℕ → Playback.Round
round bytes = record {
  received = got bytes;
  written = pos 1;
  prepared = pos 0;
  shown = pos 1;
  broken_pipe = true;
}

abbrev heard : List Playback.Round
heard = round (1 ∷ 2 ∷ 3 ∷ 4 ∷ 5 ∷ 6 ∷ []) ∷ round (7 ∷ 8 ∷ []) ∷ []

speech-IsSpoken : All IsSpoken speech
speech-IsSpoken = (
  ((omega arith, omega arith, refl), refl, refl),
  (((omega arith, omega arith, refl), refl, refl), tt),
)

once : All (λ (t : Turn). occurs 8 t.clients ≡ 1) turns
unfolding occurs
once = (refl, (refl, tt))

heard-IsFine : All Stream.IsFine heard
heard-IsFine = (
  record { data_in = refl; writes = inl refl; shows = refl },
  (record { data_in = refl; writes = inl refl; shows = refl }, tt),
)

up :
    flatten (map bytes_of turns)
    ≡ flatten (Event.messages (pos 4) (audio_cap true (pos 4) (pos 5) [] speech).events)
unfolding flatten Event.messages audio_cap capture_loop capture_round handle_reading forward overlay
up = refl

down : flatten (map piece heard) ≡ flatten (messages 8 (events_of (handle_c sent_all 7 turns)))
unfolding flatten messages handle_c
down = refl

spoken-heard_example :
    (flatten (Event.messages (pos 6) (play_audio true (pos 6) heard).events) ≡ spoken speech)
    × ((flatten (plays (play_audio true (pos 6) heard).events) ≡ spoken speech)
        ↔ All IsWhole (map piece heard))
spoken-heard_example =
    spoken-heard (pos 4) (pos 5) (pos 6) refl refl refl sent_all 7 8 refl [] speech turns heard
      speech-IsSpoken (refl, (refl, tt)) once heard-IsFine up down
