-- ===== src/Measure/Examples.antt =====
-- A run of the client and the server of TCPMeasure/Basic.
use eng_project.Base.{
  arith, ◌*◌, ◌++◌, ◌^◌, some, none, leb, ltb, ◌==◌, if◌then◌else◌, got, [], length, ℕ, ◌≡◌, refl,
  List, [], ◌∷◌, map, pos, replicate, length-replicate,
}
use eng_project.Base.Bytes.{le_bytes}
use eng_project.Measure.Echo.{Beat, buffsize, send_data_with_metrics, handle_client}
use eng_project.Measure.Echo.Acks.{blocks, arrive, times-come_back}
use eng_project.Client.Event.{closes, slept}
use eng_project.Client.Connect.{Attempt, no_socket, refused, connected, connect_server}
use eng_project.Measure.Connect.{connect_to_server}
use eng_project.Measure.Connect.Equal.{connect_to_server-equal}
use eng_project.Measure.Figures.{
  int_max, Rate, Figure, average_bandwidth, Pulse, client_figures, Tick, server_figures,
}
use eng_project.Measure.Figures.Exact.{Within, IsRate, Took, Counted}
use eng_project.Measure.Figures.Overflow.{total, figures-exact}

abbrev beats : List Beat
beats =
    record { ms_timestamp = 1000; sent = pos 1024 }
    ∷ record { ms_timestamp = 1501; sent = pos 1024 }
    ∷ []

times-come_back_example :
    blocks
      (handle_client (replicate buffsize 0) (map arrive (blocks (send_data_with_metrics beats))))
    ≡ map (λ b. le_bytes 8 b.ms_timestamp) beats
times-come_back_example =
    times-come_back beats (replicate buffsize 0) (length-replicate {A = ℕ} buffsize 0)
      (refl, (refl, tt))

-- The third try gets through.
abbrev attempts : ℕ → Attempt
attempts n = if n == 3 then refused 4 else if n == 2 then connected 5 else no_socket

connect_to_server-equal_example :
    ((connect_to_server attempts 5 2).result ≡ (connect_server attempts 2 5).result)
    × (closes (pos 4) (connect_to_server attempts 5 2).events
        ≡ closes (pos 4) (connect_server attempts 2 5).events)
    × (slept (connect_to_server attempts 5 2).events ≡ slept (connect_server attempts 2 5).events)
connect_to_server-equal_example = connect_to_server-equal attempts 5 2 (pos 4)

-- The first block comes within a second, the next after more than one.
abbrev ticks : List Tick
ticks =
    record { received = got (replicate 1024 b'A'); sent = pos 8; current_time = 5000000900 }
    ∷ record { received = got (replicate 1000 b'A'); sent = pos 8; current_time = 6900000000 }
    ∷ []

abbrev pulses : List Pulse
pulses =
    record {
      timestamp = 1000999999;
      sent = pos 1024;
      ack = got (replicate 8 0);
      ack_time = 1003000000;
    }
    ∷ record { timestamp = 1507000000; sent = pos 1024; ack = got []; ack_time = 1508000000 }
    ∷ []

figures-exact_example :
    ((figures : List Figure) × Counted 5000000000 0 ticks figures
      × (server_figures 5000000000 0 ticks
          ≡ (if leb (total ticks) int_max then some figures else none)))
    × ((figures : List Figure) × (s : ℕ) × (rate : Rate) × Took pulses figures
        × Within (10 ^ 9) 1000000000 s 2008000000
        × IsRate (1024 * length pulses) s rate
        × (client_figures 1000000000 0 pulses 2008000000 ≡ (
            if ltb (length pulses) (2 ^ 21)
            then some (figures ++ average_bandwidth rate ∷ [])
            else none)))
figures-exact_example =
    figures-exact 5000000000 1000000000 ticks pulses 2008000000
      ((refl, refl, omega arith), ((refl, refl, omega arith), tt))
      ((refl, omega arith, omega arith), ((refl, omega arith, omega arith), tt)) (omega arith)
