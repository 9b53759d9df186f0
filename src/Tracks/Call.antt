-- ===== src/Tracks/Call.antt =====
-- A call over Online_Tracks: what UDPconn1 captures and sends, UDPconn2 plays.
use Prim.Native.String.{String}
use eng_project.Base.{
  ℕ, ◌≡◌, refl, sym, ap, ◌∙◌, true, false, List, [], ◌∷◌, ◌++◌, map, append-nil, ℤ, is_minus_one,
  All, Option, none, some, arith, subst,
}
use eng_project.Base.Loop.{run, run-append}
use eng_project.OnlineAv.Net.{SockaddrIn}
use eng_project.Client.Capture.{Reading, frames_read, recovered, broken}
use eng_project.Client.Capture.Sound.{sound, HasSound}
use eng_project.Tracks.Stream.{
  CaptureRound, capture_round, from, audio_cap, Streaming, play_round, play_audio,
}
use eng_project.Tracks.Stream.Traffic.{
  mail, plays, mail-append, plays-append, IsFine, sent_sound, overrun_sends_empty, deliver,
  IsWritten, IsPacket, packets-played,
}
use eng_project.Tracks.Conn2
use eng_project.Tracks.Conn2.{conn2}
use eng_project.Tracks.Start.{ready, bound, conn1, start1, start, set_remote}

IsPacket-sound : (reading : Reading) → HasSound reading → IsPacket (sound reading)
IsPacket-sound (frames_read n bytes) h = omega (arith, h.0, h.2)
IsPacket-sound (recovered n) h = absurd h
IsPacket-sound broken h = absurd h

All-IsPacket :
    (rounds : List CaptureRound)
    → All IsFine rounds
    → All IsPacket (map (λ (r : CaptureRound). sound r.reading) rounds)
All-IsPacket [] h = tt
All-IsPacket (r ∷ rs) h = (IsPacket-sound r.reading h.0.0, All-IsPacket rs h.1)

-- The socket of UDPconn2 on the machine that UDPconn1 sends to.
abbrev pub other_end : SockaddrIn → SockaddrIn
other_end remote = record { s_addr = remote.s_addr; sin_port = conn2.port1 }

remote-eq :
    (ip : Option ℕ) (fd : ℕ) (remote : SockaddrIn)
    → set_remote conn1 fd ip ≡ ready fd remote
    → remote ≡ other_end remote
unfolding set_remote
remote-eq none fd remote e = cc
remote-eq (some ip) fd remote e =
    let set : (record { s_addr = ip; sin_port = conn1.port2 }) ≡ remote = cc in
    subst (λ (a : SockaddrIn). a ≡ other_end a) set refl

mail-audio_cap :
    (a : SockaddrIn) (local : ℤ) (buffer : List ℕ) (rounds : List CaptureRound)
    → mail a (audio_cap true a local buffer rounds).events
      ≡ mail a (run (capture_round a) (from buffer) rounds).events
unfolding audio_cap mail
mail-audio_cap a local buffer rounds =
    mail-append a (run (capture_round a) (from buffer) rounds).events _ ∙ append-nil _

-- What comes of rounds of capture.
abbrev pub sounds : List CaptureRound → List (List ℕ)
sounds = map (λ (r : CaptureRound). sound r.reading)

-- An empty datagram ends the loop.
empty-stops :
    (results : ℕ → ℤ × ℤ) (j : ℕ) (rest : List (List ℕ))
    → (plays (run play_round false (deliver results j ([] ∷ rest))).events ≡ [])
      × ((run play_round false (deliver results j ([] ∷ rest))).state ≡ true)
unfolding run play_round plays
empty-stops results j rest = (refl, refl)

module _ (local view : ℤ) (buffer : List ℕ) (results : ℕ → ℤ × ℤ)
    (well : (i : ℕ) → IsWritten (results i)) where
  -- What is heard of datagrams that can be played, and then others.
  hearing :
      (packets more : List (List ℕ))
      → All IsPacket packets
      → (j : ℕ) × (plays (play_audio true view (deliver results 0 (packets ++ more))).events
          ≡ packets ++ plays (run play_round false (deliver results j more)).events)
        × ((play_audio true view (deliver results 0 (packets ++ more))).stop_streaming
            ≡ (run play_round false (deliver results j more)).state)
  unfolding play_audio plays
  hearing packets more h =
      let (j, played, state) = packets-played results well 0 packets more h in
      (
        j,
        plays-append (run play_round false (deliver results 0 (packets ++ more))).events _
            ∙ (append-nil _ ∙ played),
        state,
      )

  module _ (inet_pton : String → Option ℕ) (fd : ℕ) (remote : SockaddrIn)
      (started : start1 inet_pton (bound fd) ≡ ready fd remote) where
    -- The datagrams that get to UDPconn2.
    abbrev sent : List CaptureRound → List (List ℕ)
    sent rounds = mail (other_end remote) (audio_cap true remote local buffer rounds).events

    sent-eq :
        (rounds : List CaptureRound)
        → sent rounds ≡ mail remote (run (capture_round remote) (from buffer) rounds).events
    unfolding start1 start
    sent-eq rounds =
        ap (λ (a : SockaddrIn). mail a (audio_cap true remote local buffer rounds).events)
          (sym (remote-eq (inet_pton conn1.client2_ip) fd remote started))
        ∙ mail-audio_cap remote local buffer rounds

    -- The other side hears what is said: if UDPconn1 has started, each of its rounds captures between
    -- 1 and 1024 frames and sends them, and the datagrams for the address and port of UDPconn2 all
    -- arrive in the order of sending, and each write to the sound device there succeeds or fails by
    -- an underrun that is recovered from, then the sound device of UDPconn2 is given exactly the
    -- captured bytes, in order, and UDPconn2 does not set `stop_streaming`.
    pub captured-played :
        (rounds : List CaptureRound)
        → All IsFine rounds
        → (plays
              (Conn2.play_audio true view (
                deliver results 0 (
                  mail
                    (other_end remote)
                    (audio_cap true remote local buffer rounds).events))).events
            ≡ sounds rounds)
          × ((Conn2.play_audio true view (
                deliver results 0 (
                  mail
                    (other_end remote)
                    (audio_cap true remote local buffer rounds).events))).stop_streaming
              ≡ false)
    unfolding run plays Conn2.play_audio
    captured-played rounds fine =
        let (out, still, went) = sent_sound remote (from buffer) rounds refl fine in
        let all : sent rounds ≡ sounds rounds ++ [] =
          sent-eq rounds ∙ (went ∙ sym (append-nil _)) in
        let (j, played, state) = hearing (sounds rounds) [] (All-IsPacket rounds fine) in
        rw all (played ∙ append-nil _, state)

    -- An overrun on one side ends the playback on the other: if rounds that go well (as above, and
    -- the writes to the sound device there too) are followed by one in which `snd_pcm_readi` fails and `snd_pcm_recover` succeeds, so that it
    -- returns 0, an empty datagram is sent; if all arrives in order, UDPconn2 plays the sound before
    -- it, takes the empty datagram for the end of a connection, plays nothing of what follows, and
    -- sets `stop_streaming`.
    pub overrun-stops_peer :
        (rounds more : List CaptureRound) (r : CaptureRound)
        → All IsFine rounds
        → r.reading ≡ recovered 0
        → is_minus_one r.sent ≡ false
        → (plays
              (Conn2.play_audio true view (
                deliver results 0 (
                  mail
                    (other_end remote)
                    (audio_cap true remote local buffer (rounds ++ r ∷ more)).events))).events
            ≡ sounds rounds)
          × ((Conn2.play_audio true view (
                deliver results 0 (
                  mail
                    (other_end remote)
                    (audio_cap true remote local buffer
                      (rounds ++ r ∷ more)).events))).stop_streaming
              ≡ true)
    unfolding Conn2.play_audio
    overrun-stops_peer rounds more r fine e ok =
        let (out, still, went) = sent_sound remote (from buffer) rounds refl fine in
        let s : Streaming = (run (capture_round remote) (from buffer) rounds).state in
        let split = run-append (capture_round remote) (from buffer) rounds (r ∷ more) out in
        let rest : (l : List (List ℕ)) × (mail remote
                (run (capture_round remote) s (r ∷ more)).events
              ≡ [] ∷ l) =
          overrun_sends_empty remote s r more e ok in
        let all : sent (rounds ++ r ∷ more) ≡ sounds rounds ++ [] ∷ rest.0 =
          sent-eq (rounds ++ r ∷ more)
          ∙ (ap (mail remote) split.0
              ∙ (mail-append remote (run (capture_round remote) (from buffer) rounds).events _
                  ∙ rw (went, rest.1) refl)) in
        let (j, played, state) = hearing (sounds rounds) ([] ∷ rest.0) (All-IsPacket rounds fine) in
        let (nothing, stops) = empty-stops results j rest.0 in
        rw all (played ∙ (rw nothing (append-nil _)), state ∙ stops)
