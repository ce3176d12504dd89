-- ===== src/BridgeServer/Change.antt =====
-- What the loops of the server make of the clients in the list.
use ras_pi_arduino.Prelude.{ℕ, zero, suc, ◌<◌, ◌≡◌, ◌≢◌, refl, ap, ◌∙◌, arith, member, Option}
use ras_pi_arduino.Prelude.{
  true, false, some, List, [], ◌∷◌, ◌++◌, map, length, ◌==◌, if◌then◌else◌, Bool-cases, inl, inr,
  ne→==-false, ◌>>=◌,
}
use ras_pi_arduino.Prelude.Signed.{ℤ}
use ras_pi_arduino.Items.{Item, Heap, put}
use ras_pi_arduino.Items.Chain.{Chain, link, Chain-same, Distinct}
use ras_pi_arduino.Items.Unlink.{Elsewhere, items-put, items-put_ne}
use ras_pi_arduino.Items.Refine.{Holds, Owns, Holds-rest}
use ras_pi_arduino.BridgeClient.{Client, Call}
use ras_pi_arduino.BridgeServer.{Clients, write_from, stop_all, pick_from}
use ras_pi_arduino.BridgeClient

-- A client in its item.
abbrev pub item_of : Client → ℕ → Item Client
item_of c n = record { string = c; next = n }

pub Chain-put :
    {h : Heap Client} {a n : ℕ} {ps : List ℕ} {cs : List Client} (c : Client)
    → a ≢ 0
    → member a ps ≡ false
    → Chain h n ps cs
    → Chain (put a (some (item_of c n)) h) a (a ∷ ps) (c ∷ cs)
Chain-put {h} {a} {n} {ps} c q away rest = link q (items-put a (some (item_of c n)) h) (
    Chain-same
      (λ b m.
        items-put_ne a b (some (item_of c n)) h
          (λ e. ground (arith, m, away, ap (λ d. member d ps) e)))
      rest)

pub Owns-put :
    {h : Heap Client} {ps : List ℕ} (a : ℕ) (item : Item Client)
    → Owns h ps
    → member a ps ≡ true
    → Owns (put a (some item) h) ps
unfolding put
Owns-put {h} {ps} a item o here = record {
  distinct = o.distinct;
  below = o.below;
  only = λ b m. ground (arith, m, here, o.only b, ap (λ d. member d ps) {x = b} {y = a});
  positive = o.positive;
}

unused-put :
    (a : ℕ) (item : Option (Item Client)) (h : Heap Client) → (put a item h).unused ≡ h.unused
unfolding put
unused-put a item h = refl

-- The loop of `write`.
module _ (sent : ℤ → ℤ) (bytes : List ℕ) where
  abbrev pub written : Client → Client
  written c = (BridgeClient.write (sent c.sockfd) bytes c).2

  abbrev pub write_calls : List Client → List Call
  write_calls [] = []
  write_calls (c ∷ cs) = (BridgeClient.write (sent c.sockfd) bytes c).1 ++ write_calls cs

  write_from-Chain :
      (fuel : ℕ) {h : Heap Client} {p : ℕ} {ps : List ℕ} {cs : List Client}
      → Chain h p ps cs
      → Distinct ps
      → length cs < fuel
      → (h' : Heap Client) × (write_from fuel sent bytes p h ≡ some (write_calls cs, h'))
        × Chain h' p ps (map written cs)
        × Elsewhere h h' ps
  unfolding write_from member
  write_from-Chain zero c distinct enough = absurd (omega arith)
  write_from-Chain (suc fuel) {h} Chain.end distinct enough =
      (h, refl, Chain.end, record { same = λ b m. refl; unused = refl })
  write_from-Chain (suc fuel) {h} (link {a = a} {n = n} {ps = ps} {x = c} {xs = cs} q here rest)
        distinct enough =
      let item = some (item_of (written c) n) in
      let (h', done, chain, e) =
        write_from-Chain fuel
          (Chain-same {h' = put a item h}
            (λ b m.
              items-put_ne a b item h (λ e. ground (arith, m, distinct, ap (λ d. member d ps) e)))
            rest)
          distinct.1 (omega arith) in
      (
        h',
        rw (write_from, ne→==-false a 0 q, here, ◌>>=◌, done) refl,
        link q (e.same a distinct.0 ∙ items-put a item h) chain,
        record {
          same = λ b m. ground (arith, m, e.same b, items-put_ne a b item h);
          unused = e.unused ∙ unused-put a item h;
        },
      )

  pub write_from-Holds :
      (fuel : ℕ) {s : Clients} {cs : List Client}
      → Holds s cs
      → length cs < fuel
      → (h' : Heap Client) × (write_from fuel sent bytes s.first s.heap ≡ some (write_calls cs, h'))
        × Holds (record s { heap = h' }) (map written cs)
  write_from-Holds fuel {s} {cs} h enough =
      let (h', done, chain, e) = write_from-Chain fuel h.chain h.owns.distinct enough in
      (
        h',
        done,
        record {
          places = h.places;
          chain = chain;
          owns = record {
            distinct = h.owns.distinct;
            below = λ b m. ground (arith, h.owns.below b m, e.unused);
            only = λ b m. e.same b m ∙ h.owns.only b m;
            positive = ground (arith, h.owns.positive, e.unused);
          };
        },
      )

-- The loop of `stopAll`.
abbrev pub stop_calls : List Client → List Call
stop_calls [] = []
stop_calls (c ∷ cs) = (BridgeClient.stop c).0 ++ stop_calls cs

pub stop_all-Chain :
    (fuel : ℕ) {h : Heap Client} {p : ℕ} {ps : List ℕ} {cs : List Client}
    → Chain h p ps cs
    → Owns h ps
    → length cs < fuel
    → (s' : Clients) × (stop_all fuel (record { first = p; heap = h }) ≡ some (stop_calls cs, s'))
      × Holds s' []
unfolding stop_all
stop_all-Chain zero c o enough = absurd (omega arith)
stop_all-Chain (suc fuel) {h} Chain.end o enough =
    (record { first = 0; heap = h }, refl, record { places = []; chain = Chain.end; owns = o })
stop_all-Chain (suc fuel) (link {a = a} q here rest) o enough =
    let h' = Holds-rest rest o in
    let (s', done, holds) = stop_all-Chain fuel h'.chain h'.owns (omega arith) in
    (s', rw (stop_all, ne→==-false a 0 q, here, ◌>>=◌, done) refl, holds)

-- The last loop of `available`.
abbrev pub first_ready : (ℤ → ℕ) → List Client → Client
first_ready counts [] = BridgeClient.construct
first_ready counts (c ∷ cs) = if counts c.sockfd == 0 then first_ready counts cs else c

pub pick_from-Chain :
    (counts : ℤ → ℕ) (fuel : ℕ) {h : Heap Client} {p : ℕ} {ps : List ℕ} {cs : List Client}
    → Chain h p ps cs
    → length cs < fuel
    → pick_from fuel counts p h ≡ some (first_ready counts cs)
unfolding pick_from
pick_from-Chain counts zero c enough = absurd (omega arith)
pick_from-Chain counts (suc fuel) Chain.end enough = refl
pick_from-Chain counts (suc fuel) (link {a = a} {x = c} q here rest) enough =
    elim (Bool-cases (counts c.sockfd == 0)) [
      | inl e ↦
          rw (pick_from, ne→==-false a 0 q, here, ◌>>=◌, e)
            (pick_from-Chain counts fuel rest (omega arith))
      | inr e ↦ rw (pick_from, ne→==-false a 0 q, here, ◌>>=◌, e) refl
    ]
