-- ===== src/HttpClient.antt =====
-- libraries/Bridge/src/HttpClient.cpp and HttpClient.h: requests by the program curl.
pub mod Commands
pub mod Requests
mod Tests
use ras_pi_arduino.Prelude.{ℕ, Bool, true, false, Option, none, some}
use ras_pi_arduino.Prelude.{List, [], ◌∷◌, length, if◌then◌else◌, ◌>>=◌, ltb, not}
use ras_pi_arduino.Prelude.Signed.{ℤ}
use ras_pi_arduino.Items
use ras_pi_arduino.Process.{
  Process, Str, Turn, begin, add_parameter, run, run_asynchronously, running, exit_value,
}
use ras_pi_arduino.Process

pub record HttpClient : Type 0 where
  pub process : Process
  pub insecure : Bool
  pub header : Str

unfoldable pub construct : Items.Heap Str → HttpClient
construct heap = record { process = Process.construct heap; insecure = false; header = [] }

abbrev pub curl : Str
curl = b'c' ∷ b'u' ∷ b'r' ∷ b'l' ∷ []

abbrev pub dash_k : Str
dash_k = b'-' ∷ b'k' ∷ []

abbrev pub dash_header : Str
dash_header = b'-' ∷ b'-' ∷ b'h' ∷ b'e' ∷ b'a' ∷ b'd' ∷ b'e' ∷ b'r' ∷ []

abbrev pub dash_request : Str
dash_request = b'-' ∷ b'-' ∷ b'r' ∷ b'e' ∷ b'q' ∷ b'u' ∷ b'e' ∷ b's' ∷ b't' ∷ []

abbrev pub dash_data : Str
dash_data = b'-' ∷ b'-' ∷ b'd' ∷ b'a' ∷ b't' ∷ b'a' ∷ []

abbrev pub verb_post : Str
verb_post = b'P' ∷ b'O' ∷ b'S' ∷ b'T' ∷ []

abbrev pub verb_patch : Str
verb_patch = b'P' ∷ b'A' ∷ b'T' ∷ b'C' ∷ b'H' ∷ []

abbrev pub verb_put : Str
verb_put = b'P' ∷ b'U' ∷ b'T' ∷ []

unfoldable pub add_insecure : ℕ → Bool → Process → Option Process
add_insecure fuel insecure p = if insecure then add_parameter fuel dash_k p else some p

-- `addHeader`.
unfoldable pub add_header : ℕ → Str → Process → Option Process
add_header fuel header p = elim (ltb 0 (length header)) [
  | true ↦ do p' ← add_parameter fuel dash_header p; add_parameter fuel header p'
  | false ↦ some p
]

module _ (fuel : ℕ) where
  abbrev pub Prepared : Type 0
  Prepared = Option (Option ℤ × Process)

  -- The command of `get`, with the process that is killed for it.
  unfoldable pub prepare_get : Str → HttpClient → Prepared
  prepare_get url c = do
    (killed, p1) ← begin fuel curl c.process
    p2 ← add_insecure fuel c.insecure p1
    p3 ← add_header fuel c.header p2
    p4 ← add_parameter fuel url p3
    some (killed, p4)

  -- The commands of `post`, `patch` and `put`, which differ in `verb`.
  unfoldable pub prepare_data : Str → Str → Str → HttpClient → Prepared
  prepare_data verb url body c = do
    (killed, p1) ← begin fuel curl c.process
    p2 ← add_insecure fuel c.insecure p1
    p3 ← add_parameter fuel dash_request p2
    p4 ← add_parameter fuel verb p3
    p5 ← add_parameter fuel dash_data p4
    p6 ← add_parameter fuel body p5
    p7 ← add_header fuel c.header p6
    p8 ← add_parameter fuel url p7
    some (killed, p8)

  -- `return run()`.
  unfoldable pub finish :
      HttpClient
      → Bool
      → List Turn
      → List (List Turn)
      → Prepared
      → Option (Option ℤ × ℕ × HttpClient)
  finish c created early gaps prepared = do
    (killed, p) ← prepared
    (value, p') ← run fuel created early gaps p
    some (killed, value, record c { process = p' })

  -- `runAsynchronously()`, and whether there is a new thread.
  unfoldable pub finish_asynchronously :
      HttpClient → Bool → Prepared → Option (Option ℤ × Bool × HttpClient)
  finish_asynchronously c created prepared = do
    (killed, p) ← prepared
    let (new, p') = run_asynchronously created p
    some (killed, new, record c { process = p' })

  unfoldable pub get :
      Bool → List Turn → List (List Turn) → Str → HttpClient → Option (Option ℤ × ℕ × HttpClient)
  get created early gaps url c = finish c created early gaps (prepare_get url c)

  unfoldable pub get_asynchronously :
      Bool → Str → HttpClient → Option (Option ℤ × Bool × HttpClient)
  get_asynchronously created url c = finish_asynchronously c created (prepare_get url c)

  unfoldable pub post :
      Bool
      → List Turn
      → List (List Turn)
      → Str
      → Str
      → HttpClient
      → Option (Option ℤ × ℕ × HttpClient)
  post created early gaps url body c =
      finish c created early gaps (prepare_data verb_post url body c)

  unfoldable pub post_asynchronously :
      Bool → Str → Str → HttpClient → Option (Option ℤ × Bool × HttpClient)
  post_asynchronously created url body c =
      finish_asynchronously c created (prepare_data verb_post url body c)

  unfoldable pub patch :
      Bool
      → List Turn
      → List (List Turn)
      → Str
      → Str
      → HttpClient
      → Option (Option ℤ × ℕ × HttpClient)
  patch created early gaps url body c =
      finish c created early gaps (prepare_data verb_patch url body c)

  unfoldable pub patch_asynchronously :
      Bool → Str → Str → HttpClient → Option (Option ℤ × Bool × HttpClient)
  patch_asynchronously created url body c =
      finish_asynchronously c created (prepare_data verb_patch url body c)

  unfoldable pub put :
      Bool
      → List Turn
      → List (List Turn)
      → Str
      → Str
      → HttpClient
      → Option (Option ℤ × ℕ × HttpClient)
  put created early gaps url body c = finish c created early gaps (prepare_data verb_put url body c)

  unfoldable pub put_asynchronously :
      Bool → Str → Str → HttpClient → Option (Option ℤ × Bool × HttpClient)
  put_asynchronously created url body c =
      finish_asynchronously c created (prepare_data verb_put url body c)

unfoldable pub ready : HttpClient → Bool
ready c = not (running c.process)

unfoldable pub get_result : HttpClient → ℕ
get_result c = exit_value c.process

unfoldable pub no_check_ssl : HttpClient → HttpClient
no_check_ssl c = record c { insecure = true }

unfoldable pub check_ssl : HttpClient → HttpClient
check_ssl c = record c { insecure = false }

unfoldable pub set_header : Str → HttpClient → HttpClient
set_header header c = record c { header = header }
