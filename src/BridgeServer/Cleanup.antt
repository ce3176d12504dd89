-- ===== src/BridgeServer/Cleanup.antt =====
-- `cleanup` takes the clients that are not connected out of the list.
use ras_pi_arduino.Prelude.{ℕ, zero, suc, ◌<◌, ◌≤◌, ◌≡◌, ◌≢◌, refl, ap, ◌∙◌, arith, member, Option}
use ras_pi_arduino.Prelude.{
  true, none, some, List, [], ◌∷◌, length, if◌then◌else◌, Bool-cases, inl, inr, ne→==-false, ◌>>=◌,
}
use ras_pi_arduino.Prelude.Signed.{ℤ}
use ras_pi_arduino.Items.{Heap, put, unlink}
use ras_pi_arduino.Items.Chain.{Chain, link, Distinct}
use ras_pi_arduino.Items.Unlink.{Chain-unlinked, Removed, Removed-hit, Removed-miss, items-put}
use ras_pi_arduino.Items.Refine.{Holds, Owns, Holds-rest, Holds-Removed}
use ras_pi_arduino.BridgeClient.{Client}
use ras_pi_arduino.BridgeServer.{
  Clients, is_connected, drop_lost, clean_from, clean_behind, cleanup,
}

module _ (probe : ℤ → ℤ) where
  -- The clients that stay.
  abbrev pub alive : List Client → List Client
  alive [] = []
  alive (c ∷ cs) = if is_connected probe c then c ∷ alive cs else alive cs

  -- The list from the first client on that stays.
  abbrev dropped : List Client → List Client
  dropped [] = []
  dropped (c ∷ cs) = if is_connected probe c then c ∷ cs else dropped cs

  length-dropped : (cs : List Client) → length (dropped cs) ≤ length cs
  length-dropped [] = omega arith
  length-dropped (c ∷ cs) = ground (arith, length-dropped cs)

  alive-dropped : (cs : List Client) → alive (dropped cs) ≡ alive cs
  alive-dropped [] = refl
  alive-dropped (c ∷ cs) = elim (Bool-cases (is_connected probe c)) [
    | inl e ↦ rw (e, e) refl
    | inr e ↦ rw e (alive-dropped cs)
  ]

  drop_lost-Holds :
      (fuel : ℕ) {heap : Heap Client} {p : ℕ} {ps : List ℕ} {cs : List Client}
      → Chain heap p ps cs
      → Owns heap ps
      → length cs < fuel
      → (s' : Clients) × (drop_lost fuel probe p heap ≡ some s') × Holds s' (dropped cs)
  unfolding drop_lost
  drop_lost-Holds zero c o enough = absurd (omega arith)
  drop_lost-Holds (suc fuel) {heap} Chain.end o enough =
      (record { first = 0; heap = heap }, refl, record { places = []; chain = Chain.end; owns = o })
  drop_lost-Holds (suc fuel) {heap} {cs = c ∷ cs} (link {a} {n} {ps} q here rest) o enough =
      elim (Bool-cases (is_connected probe c))
        as (λ _.
          (s' : Clients) × (drop_lost (suc fuel) probe a heap ≡ some s')
          × Holds s' (dropped (c ∷ cs))) [
            | inl e ↦ (
              record { first = a; heap = heap },
              rw (drop_lost, ne→==-false a 0 q, here, ◌>>=◌, e) refl,
              rw e (record { places = a ∷ ps; chain = link q here rest; owns = o }),
            )
            | inr e ↦
                let h = Holds-rest rest o in
                let (s', done, holds) = drop_lost-Holds fuel h.chain h.owns (omega arith) in
                (s', rw (drop_lost, ne→==-false a 0 q, here, ◌>>=◌, e) done, rw e holds)
          ]

  -- A client is deleted, and then those behind it.
  Removed-again :
      {h h' h'' : Heap Client} {pit it : ℕ} {ps : List ℕ} {ys zs : List Client}
      → Distinct (pit ∷ it ∷ ps)
      → Removed h pit (it ∷ ps) zs h'
      → h'.items it ≡ none
      → Removed h' pit ps ys h''
      → Removed h pit (it ∷ ps) ys h''
  unfolding member
  Removed-again {pit = pit} {it = it} {ps = ps} distinct r gone r' = record {
    places = r'.places;
    chain = r'.chain;
    distinct = r'.distinct;
    part = λ b m. ground (arith, m, r'.part b);
    freed = λ b m m'. ground (
      arith,
      m,
      m',
      gone,
      distinct,
      r'.freed b,
      r'.elsewhere.same b,
      ap (λ c. member c ps) {x = b} {y = it},
      Bool-cases (member b ps),
    );
    elsewhere = record {
      same = λ b m. ground (arith, m, r'.elsewhere.same b, r.elsewhere.same b);
      unused = r'.elsewhere.unused ∙ r.elsewhere.unused;
    };
  }

  abbrev Cleans : ℕ → Heap Client → ℕ → ℕ → List ℕ → Client → List Client → Type 0
  Cleans fuel h pit it ps y cs =
      (h' : Heap Client) × (clean_from fuel probe pit it h ≡ some h')
      × Removed h pit ps (y ∷ alive cs) h'

  clean_from-Removed :
      (fuel : ℕ) {h : Heap Client} {pit it : ℕ} {ps : List ℕ} {y : Client} {cs : List Client}
      → pit ≢ 0
      → h.items pit ≡ some (record { string = y; next = it })
      → Chain h it ps cs
      → Distinct (pit ∷ ps)
      → length cs < fuel
      → Cleans fuel h pit it ps y cs
  unfolding clean_from unlink member
  clean_from-Removed zero q here c distinct enough = absurd (omega arith)
  clean_from-Removed (suc fuel) {h} {pit} q here Chain.end distinct enough = (
    h,
    refl,
    record {
      places = [];
      chain = link q here Chain.end;
      distinct = distinct;
      part = λ b m. m;
      freed = λ b m. ground (arith, m);
      elsewhere = record { same = λ b m. refl; unused = refl };
    },
  )
  clean_from-Removed (suc fuel) {h} {pit} {it} {y = y} q here
        (link {n = n} {ps = ps} {x = c} {xs = cs} r there rest) distinct enough =
      elim (Bool-cases (is_connected probe c))
        as (λ _. Cleans (suc fuel) h pit it (it ∷ ps) y (c ∷ cs)) [
          | inl e ↦
              let (h', done, rest') =
                clean_from-Removed fuel r there rest distinct.1 (omega arith) in
              (
                h',
                rw (clean_from, ne→==-false it 0 r, there, ◌>>=◌, e) done,
                rw e (Removed-miss q here distinct rest'),
              )
          | inr e ↦
              let h1 = put it none (put pit (some (record { string = y; next = n })) h) in
              let gone : h1.items it ≡ none =
                items-put it none (put pit (some (record { string = y; next = n })) h) in
              let kept : h1.items pit ≡ some (record { string = y; next = n }) =
                unfold put in ground (arith, distinct) in
              let (h', done, rest') =
                clean_from-Removed fuel q kept (Chain-unlinked pit it y rest distinct)
                  (ground (arith, distinct)) (omega arith) in
              (
                h',
                rw (clean_from, ne→==-false it 0 r, there, ◌>>=◌, e, unlink, here) done,
                rw e (Removed-again distinct (Removed-hit q rest distinct) gone rest'),
              )
        ]

  abbrev Cleaned : Option Clients → List Client → Type 0
  Cleaned r cs = (s' : Clients) × (r ≡ some s') × Holds s' (alive cs)

  clean_behind-Chain :
      (fuel : ℕ) {heap : Heap Client} {p : ℕ} {ps : List ℕ} {cs : List Client}
      → Chain heap p ps cs
      → Owns heap ps
      → ((c : Client) (more : List Client) → cs ≡ c ∷ more → is_connected probe c ≡ true)
      → length cs < fuel
      → Cleaned (clean_behind fuel probe (record { first = p; heap = heap })) cs
  unfolding clean_behind
  clean_behind-Chain fuel {heap} Chain.end o first enough =
      (record { first = 0; heap = heap }, refl, record { places = []; chain = Chain.end; owns = o })
  clean_behind-Chain fuel {heap} (link {a = a} {x = c} {xs = cs} q here rest) o first enough =
      let (h, done, r) = clean_from-Removed fuel q here rest o.distinct (omega arith) in
      (
        record { first = a; heap = h },
        rw (clean_behind, ne→==-false a 0 q, here, ◌>>=◌, done) refl,
        rw (first c cs refl) (Holds-Removed o r),
      )

  first_dropped :
      (cs : List Client) (c : Client) (more : List Client)
      → dropped cs ≡ c ∷ more
      → is_connected probe c ≡ true
  first_dropped [] c more e = cc
  first_dropped (d ∷ cs) c more e = elim (Bool-cases (is_connected probe d)) [
    | inl t ↦ ground (arith, t, e)
    | inr t ↦ first_dropped cs c more (ground (arith, t, e))
  ]

  cleanup-Chain :
      (fuel : ℕ) {heap : Heap Client} {p : ℕ} {ps : List ℕ} {cs : List Client}
      → Chain heap p ps cs
      → Owns heap ps
      → length cs < fuel
      → Cleaned (cleanup fuel probe (record { first = p; heap = heap })) cs
  unfolding cleanup
  cleanup-Chain fuel {heap} Chain.end o enough =
      (record { first = 0; heap = heap }, refl, record { places = []; chain = Chain.end; owns = o })
  cleanup-Chain fuel {heap} {cs = cs} (link {a = a} q here rest) o enough =
      let (s, done, h) = drop_lost-Holds fuel (link q here rest) o enough in
      let (s', done', h') =
        clean_behind-Chain fuel h.chain h.owns (first_dropped cs)
          (omega (arith, length-dropped cs)) in
      (s', rw (cleanup, ne→==-false a 0 q, done) done', rw (alive-dropped cs) at (h'))

  -- Exactly the clients that are connected stay, in their order, and the others are deleted.
  pub cleanup-Holds :
      (fuel : ℕ) {s : Clients} {cs : List Client}
      → Holds s cs
      → length cs < fuel
      → (s' : Clients) × (cleanup fuel probe s ≡ some s') × Holds s' (alive cs)
  cleanup-Holds fuel h enough = cleanup-Chain fuel h.chain h.owns enough
