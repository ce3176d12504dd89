-- ===== src/HttpClient/Commands.antt =====
-- The requests, and the command lines that they are for.
use ras_pi_arduino.Prelude.{ℕ, suc, ◌+◌, ◌≤◌, ◌<◌, ◌≡◌, refl, ap, ◌∙◌, arith}
use mathlib.Core.Path.{fun_ext}
use ras_pi_arduino.Prelude.{Bool, true, false, Option, none, some, List, [], ◌∷◌, ◌++◌, length}
use ras_pi_arduino.Prelude.{length-append, append-nil, append_assoc, ltb, if◌then◌else◌, ◌>>=◌}
use ras_pi_arduino.Prelude.Signed.{ℤ}
use ras_pi_arduino.Items.Refine.{Holds}
use ras_pi_arduino.Process.{Process, Str, Turn, begin, add_parameter, close}
use ras_pi_arduino.Process.Run.{Ready, begin-Ready, add_parameter-Ready}
use ras_pi_arduino.HttpClient.{
  HttpClient, curl, dash_k, dash_header, dash_request, dash_data, verb_post, verb_patch, verb_put,
  add_insecure, add_header, prepare_get, prepare_data, finish, finish_asynchronously,
}
use ras_pi_arduino.HttpClient

pub data Request : Type 0 where
  get : Str → Request
  post patch put : Str → Str → Request

-- The calls of the code.
unfoldable pub request :
    ℕ
    → Bool
    → List Turn
    → List (List Turn)
    → Request
    → HttpClient
    → Option (Option ℤ × ℕ × HttpClient)
request fuel created early gaps (get url) c = HttpClient.get fuel created early gaps url c
request fuel created early gaps (post url body) c =
    HttpClient.post fuel created early gaps url body c
request fuel created early gaps (patch url body) c =
    HttpClient.patch fuel created early gaps url body c
request fuel created early gaps (put url body) c = HttpClient.put fuel created early gaps url body c

unfoldable pub request_asynchronously :
    ℕ → Bool → Request → HttpClient → Option (Option ℤ × Bool × HttpClient)
request_asynchronously fuel created (get url) c = HttpClient.get_asynchronously fuel created url c
request_asynchronously fuel created (post url body) c =
    HttpClient.post_asynchronously fuel created url body c
request_asynchronously fuel created (patch url body) c =
    HttpClient.patch_asynchronously fuel created url body c
request_asynchronously fuel created (put url body) c =
    HttpClient.put_asynchronously fuel created url body c

-- The command line that a request is for.
abbrev pub insecure_flag : Bool → List Str
insecure_flag insecure = if insecure then dash_k ∷ [] else []

abbrev pub method : Request → List Str
method (get url) = []
method (post url body) = dash_request ∷ verb_post ∷ dash_data ∷ body ∷ []
method (patch url body) = dash_request ∷ verb_patch ∷ dash_data ∷ body ∷ []
method (put url body) = dash_request ∷ verb_put ∷ dash_data ∷ body ∷ []

abbrev pub header_flag : Str → List Str
header_flag [] = []
header_flag (h ∷ header) = dash_header ∷ (h ∷ header) ∷ []

abbrev pub target : Request → Str
target (get url) = url
target (post url body) = url
target (patch url body) = url
target (put url body) = url

abbrev pub parameters : Bool → Str → Request → List Str
parameters insecure header r =
    insecure_flag insecure ++ (method r ++ (header_flag header ++ (target r ∷ [])))

abbrev pub prepare_request : ℕ → Request → HttpClient → Option (Option ℤ × Process)
prepare_request fuel (get url) c = prepare_get fuel url c
prepare_request fuel (post url body) c = prepare_data fuel verb_post url body c
prepare_request fuel (patch url body) c = prepare_data fuel verb_patch url body c
prepare_request fuel (put url body) c = prepare_data fuel verb_put url body c

-- addParameter of each string in turn, and then `k`.
add_then {ℓ} : {B : Type ℓ} → ℕ → List Str → (Process → Option B) → Process → Option B
add_then fuel [] k p = k p
add_then fuel (x ∷ xs) k p = add_parameter fuel x p >>= λ q. add_then fuel xs k q

add_then-Ready {ℓ} :
    {B : Type ℓ} (fuel : ℕ) (params : List Str) (k : Process → Option B) {p : Process} {x : Str}
    {xs : List Str}
    → Ready p (x ∷ xs)
    → length xs + length params < fuel
    → (p' : Process) × (add_then fuel params k p ≡ k p') × Ready p' (x ∷ (xs ++ params))
unfolding add_then
add_then-Ready fuel [] k {p} {x} {xs} r enough = (p, refl, rw (append-nil xs) r)
add_then-Ready fuel (y ∷ ys) k {p} {x} {xs} r enough =
    let (q, added, ready) = add_parameter-Ready fuel y r (omega arith) in
    let (p', done, ready') =
      add_then-Ready fuel ys k ready (omega (arith, length-append xs (y ∷ []))) in
    (p', rw (add_then, added) done, rw (append_assoc xs (y ∷ []) ys) at (ready'))

bind_assoc :
    {A B D : Type 0} (m : Option A) (f : A → Option B) (g : B → Option D)
    → ((m >>= f) >>= g) ≡ (m >>= λ a. f a >>= g)
bind_assoc none f g = refl
bind_assoc (some a) f g = refl

add_header_cons :
    (fuel h : ℕ) (hs : Str) (q : Process)
    → add_header fuel (h ∷ hs) q
      ≡ (add_parameter fuel dash_header q >>= λ q1. add_parameter fuel (h ∷ hs) q1)
unfolding add_header
add_header_cons fuel h hs q =
    let some_header : ltb 0 (suc (length hs)) ≡ true = ground arith in
    rw (add_header, some_header) refl

abbrev hands : Option ℤ → Process → Option (Option ℤ × Process)
hands killed q = some (killed, q)

abbrev client : Process → Bool → Str → HttpClient
client p insecure header = record { process = p; insecure = insecure; header = header }

module _ (fuel : ℕ) (p p' : Process) (killed : Option ℤ)
    (begun : begin fuel curl p ≡ some (killed, p')) where
  -- The header, if there is one, and the address come last.
  rest : (header url : Str) → Process → Option (Option ℤ × Process)
  rest header url q =
      add_header fuel header q >>= λ q1. add_parameter fuel url q1 >>= λ q2. some (killed, q2)

  rest-add_then :
      (header url : Str)
      → rest header url ≡ add_then fuel (header_flag header ++ (url ∷ [])) (hands killed)
  unfolding rest add_header add_then
  rest-add_then [] url = refl
  rest-add_then (h ∷ hs) url = fun_ext λ q.
      ap (λ m. m >>= λ q1. add_parameter fuel url q1 >>= hands killed) (add_header_cons fuel h hs q)
      ∙ bind_assoc (add_parameter fuel dash_header q) (λ q1. add_parameter fuel (h ∷ hs) q1)
          (λ q2. add_parameter fuel url q2 >>= hands killed)

  prepare_get-add_then :
      (insecure : Bool) (header url : Str)
      → prepare_get fuel url (client p insecure header)
        ≡ add_then fuel (parameters insecure header (get url)) (hands killed) p'
  unfolding prepare_get add_insecure add_then rest
  prepare_get-add_then true header url =
      rw (prepare_get, begun)
        (ap (λ f. add_then fuel (dash_k ∷ []) f p') (rest-add_then header url))
  prepare_get-add_then false header url =
      rw (prepare_get, begun) (ap (λ f. f p') (rest-add_then header url))

  prepare_data-add_then :
      (insecure : Bool) (header url verb body : Str)
      → prepare_data fuel verb url body (client p insecure header)
        ≡ add_then fuel
            (insecure_flag insecure
              ++ (dash_request ∷ verb ∷ dash_data ∷ body ∷ (header_flag header ++ (url ∷ []))))
            (hands killed)
            p'
  unfolding prepare_data add_insecure add_then rest
  prepare_data-add_then true header url verb body =
      rw (prepare_data, begun)
        (ap (λ f. add_then fuel (dash_k ∷ dash_request ∷ verb ∷ dash_data ∷ body ∷ []) f p')
          (rest-add_then header url))
  prepare_data-add_then false header url verb body =
      rw (prepare_data, begun)
        (ap (λ f. add_then fuel (dash_request ∷ verb ∷ dash_data ∷ body ∷ []) f p')
          (rest-add_then header url))

  prepare-add_then :
      (insecure : Bool) (header : Str) (r : Request)
      → prepare_request fuel r (client p insecure header)
        ≡ add_then fuel (parameters insecure header r) (hands killed) p'
  prepare-add_then insecure header (get url) = prepare_get-add_then insecure header url
  prepare-add_then insecure header (post url body) =
      prepare_data-add_then insecure header url verb_post body
  prepare-add_then insecure header (patch url body) =
      prepare_data-add_then insecure header url verb_patch body
  prepare-add_then insecure header (put url body) =
      prepare_data-add_then insecure header url verb_put body

pub length-parameters :
    (insecure : Bool) (header : Str) (r : Request) → length (parameters insecure header r) ≤ 8
length-parameters insecure header r = ground (
  arith,
  flags insecure,
  headers header,
  methods r,
  length-append (insecure_flag insecure) (method r ++ (header_flag header ++ (target r ∷ []))),
  length-append (method r) (header_flag header ++ (target r ∷ [])),
  length-append (header_flag header) (target r ∷ []),
)
  where
    flags : (b : Bool) → length (insecure_flag b) ≤ 1
    flags true = omega arith
    flags false = omega arith

    headers : (h : Str) → length (header_flag h) ≤ 2
    headers [] = omega arith
    headers (c ∷ cs) = omega arith

    methods : (q : Request) → length (method q) ≤ 4
    methods (get url) = omega arith
    methods (post url body) = omega arith
    methods (patch url body) = omega arith
    methods (put url body) = omega arith

-- The process with the whole command line of the request.
pub prepared :
    (fuel : ℕ) (r : Request) (c : HttpClient) {old : List Str}
    → Holds c.process.cmd_array old
    → length old < fuel
    → 9 < fuel
    → (p' : Process) × (prepare_request fuel r c ≡ some (close c.process, p'))
      × Ready p' (curl ∷ parameters c.insecure c.header r)
prepared fuel r c h enough nine =
    let (p1, begun, ready) = begin-Ready fuel curl c.process h enough in
    let (p', added, ready') =
      add_then-Ready fuel (parameters c.insecure c.header r) (hands (close c.process)) ready
        (omega (arith, length-parameters c.insecure c.header r)) in
    (
      p',
      prepare-add_then fuel c.process p1 (close c.process) begun c.insecure c.header r ∙ added,
      ready',
    )
