-- ===== src/OnlineAv/Setup/Exits.antt =====
-- What `main` has closed when it returns.
use eng_project.Base.{
  ℕ, suc, ◌+◌, ◌≡◌, Bool, true, false, not, ◌&&◌, List, [], ◌∷◌, is_neg, if◌then◌else◌, arith,
}
use eng_project.OnlineAv.Setup.{
  Resource, sockfd, captureman, playbackman, Event, acquire, release, Calls, main,
}

abbrev pub same : Resource → Resource → Bool
same sockfd sockfd = true
same captureman captureman = true
same playbackman playbackman = true
same _ _ = false

unfoldable pub acquired : Resource → List Event → ℕ
acquired r [] = 0
acquired r (acquire q ∷ es) = if same q r then suc (acquired r es) else acquired r es
acquired r (_ ∷ es) = acquired r es

unfoldable pub released : Resource → List Event → ℕ
released r [] = 0
released r (release q ∷ es) = if same q r then suc (released r es) else released r es
released r (_ ∷ es) = released r es

-- The socket is there and bound, the capture device opens and the playback device does not.
abbrev pub half_open : Calls → Bool
half_open c =
    not (is_neg c.socket)
    && not (is_neg c.broadcast)
    && not (is_neg c.bound)
    && c.capture_opens
    && not c.playback_opens

-- The program gives back what it takes, with one exception: on every path, the errors included,
-- `main` closes the socket and the playback device as often as it opened them, and the capture
-- device too, unless it was the playback device alone that failed; then the capture device stays
-- open.
pub main-releases :
    (c : Calls)
    → (acquired sockfd (main c).events ≡ released sockfd (main c).events)
      × (acquired playbackman (main c).events ≡ released playbackman (main c).events)
      × (acquired captureman (main c).events
          ≡ released captureman (main c).events + (if half_open c then 1 else 0))
unfolding main acquired released
main-releases c = ground arith
