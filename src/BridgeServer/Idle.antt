-- ===== src/BridgeServer/Idle.antt =====
-- The client of a descriptor, which `available` stops if it has nothing to read.
use ras_pi_arduino.Prelude.{ℕ, zero, suc, ◌<◌, ◌≡◌, ◌≢◌, refl, ap, ◌∙◌, arith, member}
use ras_pi_arduino.Prelude.{
  true, false, some, List, [], ◌∷◌, length, ◌==◌, if◌then◌else◌, Bool-cases, inl, inr, ◌⊎◌,
  ne→==-false, ◌>>=◌,
}
use ras_pi_arduino.Prelude.Signed.{ℤ}
use ras_pi_arduino.Items.{Item, Heap, put}
use ras_pi_arduino.Items.Chain.{Chain, link, Chain-same, Distinct}
use ras_pi_arduino.Items.Unlink.{items-put_ne}
use ras_pi_arduino.Items.Refine.{Holds, Owns}
use ras_pi_arduino.BridgeClient.{Client, Call}
use ras_pi_arduino.BridgeServer.{Clients, client_by_fd, stop_idle, same_fd}
use ras_pi_arduino.BridgeClient
use ras_pi_arduino.BridgeServer.Change.{item_of, Chain-put, Owns-put}

-- The first client of a descriptor, changed.
abbrev pub changed : (Client → Client) → ℤ → List Client → List Client
changed f fd [] = []
changed f fd (c ∷ cs) = if same_fd c.sockfd fd then f c ∷ cs else c ∷ changed f fd cs

pub length-changed :
    (f : Client → Client) (fd : ℤ) (cs : List Client) → length (changed f fd cs) ≡ length cs
length-changed f fd [] = refl
length-changed f fd (c ∷ cs) = ground (arith, length-changed f fd cs)

-- The calls for the first client of a descriptor.
abbrev pub calls_of : (Client → List Call) → ℤ → List Client → List Call
calls_of g fd [] = []
calls_of g fd (c ∷ cs) = if same_fd c.sockfd fd then g c else calls_of g fd cs

-- What is stored is there already.
Chain-put_same :
    {h : Heap Client} {p : ℕ} {ps : List ℕ} {cs : List Client} (a : ℕ) (item : Item Client)
    → h.items a ≡ some item
    → Chain (put a (some item) h) p ps cs
    → Chain h p ps cs
unfolding put
Chain-put_same {h} a item here c =
    Chain-same (λ b m. ground (arith, here, ap (λ d. h.items d) {x = b} {y = a})) c

-- The client at `a` is the first of the descriptor `fd`.
record Found (h : Heap Client) (fd : ℤ) (p : ℕ) (ps : List ℕ) (cs : List Client) (a : ℕ)
    : Type 0 where
  pub item : Item Client
  pub nonzero : a ≢ 0
  pub here : h.items a ≡ some item
  pub inside : member a ps ≡ true
  pub calls : (g : Client → List Call) → calls_of g fd cs ≡ g item.string
  pub change :
      (f : Client → Client)
      → Chain (put a (some (item_of (f item.string) item.next)) h) p ps (changed f fd cs)

-- The list has no client of the descriptor.
abbrev Absent : ℤ → List Client → Type 0
Absent fd [] = Unit
Absent fd (c ∷ cs) = (same_fd c.sockfd fd ≡ false) × Absent fd cs

abbrev Search : ℕ → ℤ → Heap Client → ℕ → List ℕ → List Client → Type 0
Search fuel fd h p ps cs =
    (a : ℕ) × (client_by_fd fuel fd p h ≡ some a)
    × (((a ≡ 0) × Absent fd cs) ⊎ Found h fd p ps cs a)

client_by_fd-Found :
    (fuel : ℕ) (fd : ℤ) {h : Heap Client} {p : ℕ} {ps : List ℕ} {cs : List Client}
    → Chain h p ps cs
    → Distinct ps
    → length cs < fuel
    → Search fuel fd h p ps cs
unfolding client_by_fd member
client_by_fd-Found zero fd c distinct enough = absurd (omega arith)
client_by_fd-Found (suc fuel) fd Chain.end distinct enough = (0, refl, inl (refl, tt))
client_by_fd-Found (suc fuel) fd {h} (link {a = a} {n = n} {ps = ps} {x = c} {xs = cs} q here rest)
      distinct enough =
    elim (Bool-cases (same_fd c.sockfd fd)) as (λ _. Search (suc fuel) fd h a (a ∷ ps) (c ∷ cs)) [
      | inl e ↦ (
        a,
        rw (client_by_fd, ne→==-false a 0 q, here, ◌>>=◌, e) refl,
        inr (record {
          item = item_of c n;
          nonzero = q;
          here = here;
          inside = ground arith;
          calls = λ g. rw e refl;
          change = λ f. rw e (Chain-put (f c) q distinct.0 rest);
        }),
      )
      | inr e ↦
          let (x, done, found) = client_by_fd-Found fuel fd rest distinct.1 (omega arith) in
          (
            x,
            rw (client_by_fd, ne→==-false a 0 q, here, ◌>>=◌, e) done,
            elim found [
              | inl (z, ab) ↦ inl (z, (e, ab))
              | inr f ↦ inr (record {
                item = f.item;
                nonzero = f.nonzero;
                here = f.here;
                inside = ground (arith, f.inside);
                calls = λ g. rw e (f.calls g);
                change = λ g. rw e (
                    link q
                      (items-put_ne x a (some (item_of (g f.item.string) f.item.next)) h
                          (λ t. ground (arith, f.inside, distinct, ap (λ d. member d ps) t))
                        ∙ here)
                      (f.change g));
              })
            ],
          )
    ]

changed-Absent :
    (f : Client → Client) (fd : ℤ) (cs : List Client) → Absent fd cs → changed f fd cs ≡ cs
changed-Absent f fd [] absent = refl
changed-Absent f fd (c ∷ cs) absent =
    rw absent.0 (ap (λ t. c ∷ t) (changed-Absent f fd cs absent.1))

-- The step of `available` that stops a client, on the list.
module _ (counts : ℤ → ℕ) where
  abbrev pub stopped : Client → Client
  stopped c = if counts c.sockfd == 0 then (BridgeClient.stop c).1 else c

  abbrev pub idle_calls : Client → List Call
  idle_calls c = if counts c.sockfd == 0 then (BridgeClient.stop c).0 else []

  calls_of-Absent : (fd : ℤ) (cs : List Client) → Absent fd cs → calls_of idle_calls fd cs ≡ []
  calls_of-Absent fd [] absent = refl
  calls_of-Absent fd (c ∷ cs) absent = rw absent.0 (calls_of-Absent fd cs absent.1)

  -- The client that is found is stopped if it has nothing to read.
  stop_idle-Found :
      (fuel : ℕ) (fd : ℤ) (s : Clients) {ps : List ℕ} {cs : List Client} (a : ℕ)
      → client_by_fd fuel fd s.first s.heap ≡ some a
      → Found s.heap fd s.first ps cs a
      → Owns s.heap ps
      → (s' : Clients) × (stop_idle fuel counts fd s ≡ some (calls_of idle_calls fd cs, s'))
        × Holds s' (changed stopped fd cs)
  unfolding stop_idle
  stop_idle-Found fuel fd s {ps} {cs} a done f o =
      let changes = f.change stopped in
      elim (Bool-cases (counts f.item.string.sockfd == 0)) [
        | inl e ↦ (
          record s {
            heap = put a (some (item_of (BridgeClient.stop f.item.string).1 f.item.next)) s.heap;
          },
          rw (stop_idle, done, ◌>>=◌, ne→==-false a 0 f.nonzero, f.here, e, f.calls idle_calls)
              (rw e refl),
          record {
            places = ps;
            chain = rw (e) at (changes);
            owns = Owns-put a (item_of (BridgeClient.stop f.item.string).1 f.item.next) o f.inside;
          },
        )
        | inr e ↦ (
          s,
          rw (stop_idle, done, ◌>>=◌, ne→==-false a 0 f.nonzero, f.here, e, f.calls idle_calls)
              (rw e refl),
          record {
            places = ps;
            chain = Chain-put_same a f.item f.here (rw (e) at (changes));
            owns = o;
          },
        )
      ]

  pub stop_idle-Holds :
      (fuel : ℕ) (fd : ℤ) {s : Clients} {cs : List Client}
      → Holds s cs
      → length cs < fuel
      → (s' : Clients) × (stop_idle fuel counts fd s ≡ some (calls_of idle_calls fd cs, s'))
        × Holds s' (changed stopped fd cs)
  unfolding stop_idle
  stop_idle-Holds fuel fd {s} {cs} h enough =
      let (a, done, found) = client_by_fd-Found fuel fd h.chain h.owns.distinct enough in
      elim found [
        | inl (z, absent) ↦ (
          s,
          rw (stop_idle, done, z, calls_of-Absent fd cs absent) refl,
          rw (changed-Absent stopped fd cs absent) h,
        )
        | inr f ↦ stop_idle-Found fuel fd s a done f h.owns
      ]
