-- ===== src/Measure/Connect/Equal.antt =====
-- The measuring clients connect like the client of TCPS.
use eng_project.Base.{ℕ, zero, suc, ◌≡◌, refl, ℤ, arith}
use eng_project.Client.Event.{closes, slept}
use eng_project.Client.Connect.{Attempt, connect_server}
use eng_project.Measure.Connect.{connect_to_server}

-- Whatever `socket`, `inet_pton` and `connect` do in each round, for any number of retries and any
-- delay, `connect_to_server` returns what `connect_server` of TCPS/Client/TCPSC.cpp returns, closes
-- each descriptor as often, and sleeps as long: the two differ in their messages only.
pub connect_to_server-equal :
    (attempt : ℕ → Attempt) (retries delay : ℕ) (s : ℤ)
    → ((connect_to_server attempt retries delay).result
        ≡ (connect_server attempt delay retries).result)
      × (closes s (connect_to_server attempt retries delay).events
          ≡ closes s (connect_server attempt delay retries).events)
      × (slept (connect_to_server attempt retries delay).events
          ≡ slept (connect_server attempt delay retries).events)
unfolding connect_to_server connect_server closes slept
connect_to_server-equal attempt zero delay s = (refl, refl, refl)
connect_to_server-equal attempt (suc n) delay s =
    ground (arith, connect_to_server-equal attempt n delay s)
