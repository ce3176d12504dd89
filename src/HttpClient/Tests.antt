-- ===== src/HttpClient/Tests.antt =====
-- A request with a header.
use ras_pi_arduino.Prelude.{◌≡◌, refl, arith, true, none, some, List, [], ◌∷◌, ◌*◌}
use ras_pi_arduino.Prelude.Signed.{pos}
use ras_pi_arduino.Process.{Process, Str, Turn, forks, reaps, close, execute_until_wait}
use ras_pi_arduino.Items.Refine.{new_heap}
use ras_pi_arduino.Process.Run.{Ready, construct-Holds}
use ras_pi_arduino.Process.Polls.{exits}
use ras_pi_arduino.HttpClient.{HttpClient}
use ras_pi_arduino.HttpClient.Commands.{Request, post, request, request_asynchronously}
use ras_pi_arduino.HttpClient.Requests.{command_line, request-Ready, request_asynchronously-Started}
use ras_pi_arduino.Process

abbrev client : HttpClient
client = record { process = Process.construct new_heap; insecure = true; header = 65 ∷ [] }

abbrev question : Request
question = post (b'u' ∷ []) (b'd' ∷ [])

-- curl runs through two polls and returns 22.
abbrev gaps : List (List Turn)
gaps = [] ∷ (forks (pos 7) ∷ []) ∷ [] ∷ (reaps (22 * 256) ∷ []) ∷ []

request-Ready_example :
    (p' : Process) × (request 10 true [] gaps question client
      ≡ some (none, 22, record client { process = p' }))
    × Ready p' (command_line client question)
unfolding Process.construct
request-Ready_example =
    request-Ready 10 true gaps 22 question client refl construct-Holds (omega arith) (omega arith)
      (exits {low = 0} (pos 7) refl (λ e. absurd cc) refl (omega arith) (omega arith) refl)

request_asynchronously-Started_example :
    (p p' : Process) × (request_asynchronously 10 true question client
      ≡ some (close client.process, true, record client { process = p }))
    × (execute_until_wait 10 (pos 7) p ≡ some (some (command_line client question), p'))
request_asynchronously-Started_example =
    request_asynchronously-Started 10 (pos 7) question client construct-Holds (omega arith)
      (omega arith) refl
