-- ===== src/HttpClient/Requests.antt =====
-- What the requests return, and the arguments that curl gets.
use ras_pi_arduino.Prelude.{ℕ, ◌<◌, ◌≡◌, refl, ◌∙◌, arith}
use ras_pi_arduino.Prelude.{Bool, true, false, none, some, List, [], ◌∷◌, length}
use ras_pi_arduino.Prelude.Signed.{ℤ, is_minus_one}
use ras_pi_arduino.Items.Refine.{Holds}
use ras_pi_arduino.Process.{Process, Str, Turn, execute_until_wait, run_asynchronously, close}
use ras_pi_arduino.Process.Run.{Ready, execute_until_wait-Ready}
use ras_pi_arduino.Process.Polls.{Runs}
use ras_pi_arduino.Process.Returns.{run-Ready}
use ras_pi_arduino.HttpClient.{
  HttpClient, curl, dash_k, dash_header, dash_request, dash_data, verb_post, verb_patch, verb_put,
  add_insecure, add_header, prepare_get, prepare_data, finish, finish_asynchronously,
}
use ras_pi_arduino.HttpClient
use ras_pi_arduino.HttpClient.Commands.{
  Request, get, post, patch, put, request, request_asynchronously, parameters, prepare_request,
  length-parameters, prepared,
}

request_prepare :
    (fuel : ℕ) (created : Bool) (early : List Turn) (gaps : List (List Turn)) (r : Request)
    (c : HttpClient)
    → request fuel created early gaps r c
      ≡ finish fuel c created early gaps (prepare_request fuel r c)
unfolding request HttpClient.get HttpClient.post HttpClient.patch HttpClient.put
request_prepare fuel created early gaps (get url) c = refl
request_prepare fuel created early gaps (post url body) c = refl
request_prepare fuel created early gaps (patch url body) c = refl
request_prepare fuel created early gaps (put url body) c = refl

request_asynchronously_prepare :
    (fuel : ℕ) (created : Bool) (r : Request) (c : HttpClient)
    → request_asynchronously fuel created r c
      ≡ finish_asynchronously fuel c created (prepare_request fuel r c)
unfolding request_asynchronously HttpClient.get_asynchronously HttpClient.post_asynchronously
    HttpClient.patch_asynchronously HttpClient.put_asynchronously
request_asynchronously_prepare fuel created (get url) c = refl
request_asynchronously_prepare fuel created (post url body) c = refl
request_asynchronously_prepare fuel created (patch url body) c = refl
request_asynchronously_prepare fuel created (put url body) c = refl

abbrev pub command_line : HttpClient → Request → List Str
command_line c r = curl ∷ parameters c.insecure c.header r

-- get, post, patch and put, of a client whose process is not running, return as run does for the
-- command line of the request, whatever was in the list before: the exit code of the child, or, as a
-- word, -3 if fork fails and -5 if there is no thread. They kill nothing, and the process is not
-- running then. The new thread does nothing before its start is stored and stores that fork fails
-- before the next poll, and the fuel is for the list and for ten strings.
pub request-Ready :
    (fuel : ℕ) (created : Bool) (gaps : List (List Turn)) (value : ℕ) (r : Request) (c : HttpClient)
    {old : List Str}
    → c.process.thread_running ≡ false
    → Holds c.process.cmd_array old
    → length old < fuel
    → 9 < fuel
    → Runs false created (command_line c r) gaps value
    → (p' : Process) × (request fuel created [] gaps r c
        ≡ some (none, value, record c { process = p' }))
      × Ready p' (command_line c r)
unfolding finish close
request-Ready fuel created gaps value r c off h enough nine runs =
    let (p, done, ready) = prepared fuel r c h enough nine in
    let (p', ran, ready') =
      run-Ready fuel created gaps value p (command_line c r) ready.holds
        (omega (arith, length-parameters c.insecure c.header r)) (rw ready.idle runs) in
    (
      p',
      request_prepare fuel created [] gaps r c ∙ ground (arith, off, done, ran, ready.idle),
      ready',
    )

-- The asynchronous requests start a thread, if pthread_create gives one, and if fork then gives a
-- child, it gets the command line of the request as its arguments, in order, and no others. The fuel
-- is for ten strings and for those that were in the list before.
pub request_asynchronously-Started :
    (fuel : ℕ) (pid : ℤ) (r : Request) (c : HttpClient) {old : List Str}
    → Holds c.process.cmd_array old
    → length old < fuel
    → 9 < fuel
    → is_minus_one pid ≡ false
    → (p p' : Process) × (request_asynchronously fuel true r c
        ≡ some (close c.process, true, record c { process = p }))
      × (execute_until_wait fuel pid p ≡ some (some (command_line c r), p'))
unfolding finish_asynchronously run_asynchronously
request_asynchronously-Started fuel pid r c h enough nine ok =
    let (p, done, ready) = prepared fuel r c h enough nine in
    let started : Process = record p { thread_running = true } in
    (
      started,
      record started { success = false; executed = true; exec_pid = pid; thread_running = true },
      request_asynchronously_prepare fuel true r c ∙ ground (arith, done, ready.idle),
      execute_until_wait-Ready fuel pid started ready.holds
          (omega (arith, length-parameters c.insecure c.header r)) ok,
    )
