-- ===== src/Attempt/Server.antt =====
-- TCPattempt/TCP_server/TCPserver2.cpp. Its functions have the text of those of TCPS/Server/TCPS.cpp
-- and are those models, so that what is proved of them holds here.
use eng_project.Base.{ℕ, List, ℤ, Option}
use eng_project.Relay.Handler
use eng_project.Relay.Startup
use eng_project.Relay.System

unfoldable pub handle_c : Handler.Send → ℕ → List Handler.Turn → Handler.Handled
handle_c = Handler.handle_c

unfoldable pub sigchld_handler : ℕ → List Handler.Waited → ℕ
sigchld_handler = Handler.sigchld_handler

unfoldable pub start : Option (List Startup.Candidate) → (listened installed : ℤ) → Startup.Start
start = Startup.start

-- The steps of the accepting loop of `main` and of the threads.
unfoldable pub Step : Handler.Send → System.Server → List Handler.Event → System.Server → Type 0
Step = System.Step System.relay_texts
