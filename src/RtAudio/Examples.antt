-- ===== src/RtAudio/Examples.antt =====
-- A run of sender and receiver, and the theorem at a concrete input.
use eng_project.Base.{ℕ, ◌≡◌, List, [], ◌∷◌, map, got, replicate, length-replicate, arith}
use eng_project.RtAudio.Sender.{send_loop}
use eng_project.RtAudio.Receiver.{receive_loop}
use eng_project.RtAudio.Heard.{datagrams, plays, blocks, captured-heard}

-- A whole capture, and one that fails.
abbrev rounds : List (List ℕ)
rounds = replicate 1024 7 ∷ [] ∷ []

captured-heard_example :
    plays (receive_loop (map got (datagrams (send_loop (replicate 1024 0) rounds))))
    ≡ blocks (replicate 1024 0) rounds
captured-heard_example =
    captured-heard (replicate 1024 0) rounds (length-replicate {A = ℕ} 1024 0) (omega arith)
