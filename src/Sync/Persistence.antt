-- ===== src/Sync/Persistence.antt =====
-- synchronization/state_store.py, `to_dict` and `from_dict` of a whole store. Python's `int` is the
-- parameter `int`, `none` where it raises a `ValueError`. The seats are written in their order, with
-- texts as keys, which differ since the numbers do.
use distributed_tickit_syste.Common.{
  ℕ, ◌≡◌, refl, ap, ◌∙◌, sym, String, Bool, true, false, Option, none, some, List, [], ◌∷◌, ◌++◌,
  map, All, nat_key, arith, ite, ℕ_discrete,
}
use distributed_tickit_syste.Common.Decimal.{str}
use distributed_tickit_syste.Common.Dict.{Dict, lookup, insert, IsUnique}
use distributed_tickit_syste.Sync.SeatState.{
  SeatState, SeatData, to_dict, from_dict, from_dict-to_dict, get,
}
use distributed_tickit_syste.Sync.StateStore.{StateStore}

pub record StoreData : Type 0 where
  pub server_id : Option String
  pub version_clock : Option ℕ
  pub seats : Option (List (String × SeatData))

unfoldable pub store_to_dict : StateStore → StoreData
unfolding str to_dict
store_to_dict s = record {
  server_id = some s.server_id;
  version_clock = some s.version_clock;
  seats = some (map (λ e. (str e.0, to_dict e.1)) s.seats);
}

module _ (int : String → Option ℕ) (now : String) where
  -- The rest of the loop, with the seats so far; `false` where `int` raises.
  unfoldable pub load_seats : List (String × SeatData) → Dict ℕ SeatState → Bool × Dict ℕ SeatState
  unfolding from_dict
  load_seats [] seats = (true, seats)
  load_seats ((key, d) ∷ items) seats = elim (int key) [
    | none ↦ (false, seats)
    | some seat_id ↦ load_seats items (insert seat_id (from_dict now d) seats)
  ]

  unfoldable pub store_from_dict : StoreData → StateStore → Bool × StateStore
  store_from_dict d s =
      let loaded = load_seats (get d.seats []) [] in
      (
        loaded.0,
        record s {
          server_id = get d.server_id s.server_id;
          version_clock = get d.version_clock 0;
          seats = loaded.1;
        },
      )

  -- The texts of these seat numbers are read back by `int`.
  abbrev pub IsReadable : Dict ℕ SeatState → Type 0
  IsReadable seats = All (λ (e : ℕ × SeatState). int (str e.0) ≡ some e.0) seats

  insert-new :
      (k : ℕ) (v : SeatState) (d : Dict ℕ SeatState)
      → lookup k d ≡ none
      → insert k v d ≡ d ++ (k, v) ∷ []
  unfolding lookup insert
  insert-new k v [] e = refl
  insert-new k v ((j, w) ∷ d) e = ground (arith, insert-new k v d)

  lookup-append :
      (j k : ℕ) (v : SeatState) (d : Dict ℕ SeatState)
      → lookup j d ≡ none
      → lookup j (d ++ (k, v) ∷ []) ≡ ite (ℕ_discrete k j) (some v) none
  unfolding lookup
  lookup-append j k v [] e = refl
  lookup-append j k v ((i, w) ∷ d) e = ground (arith, lookup-append j k v d)

  -- None of these seats is in the dictionary yet.
  abbrev AreNew : Dict ℕ SeatState → Dict ℕ SeatState → Type 0
  AreNew seats d = All (λ (e : ℕ × SeatState). lookup e.0 d ≡ none) seats

  AreNew-append :
      (k : ℕ) (v : SeatState) (seats d : Dict ℕ SeatState)
      → lookup k seats ≡ none
      → AreNew seats d
      → AreNew seats (d ++ (k, v) ∷ [])
  unfolding lookup
  AreNew-append k v [] d e new = tt
  AreNew-append k v ((j, w) ∷ seats) d e new =
      (ground (arith, lookup-append j k v d new.0), AreNew-append k v seats d (ground arith) new.1)

  AreNew-nothing : (seats : Dict ℕ SeatState) → AreNew seats []
  unfolding lookup
  AreNew-nothing [] = tt
  AreNew-nothing (e ∷ seats) = (refl, AreNew-nothing seats)

  append_assoc :
      (d : Dict ℕ SeatState) (e : ℕ × SeatState) (seats : Dict ℕ SeatState)
      → (d ++ e ∷ []) ++ seats ≡ d ++ e ∷ seats
  append_assoc [] e seats = refl
  append_assoc (x ∷ d) e seats = ap (λ ys. x ∷ ys) (append_assoc d e seats)

  append_nothing : (d : Dict ℕ SeatState) → d ++ [] ≡ d
  append_nothing [] = refl
  append_nothing (x ∷ d) = ap (λ ys. x ∷ ys) (append_nothing d)

  load_seats_lem :
      (seats d : Dict ℕ SeatState)
      → IsReadable seats
      → IsUnique seats
      → AreNew seats d
      → load_seats (map (λ (e : ℕ × SeatState). (str e.0, to_dict e.1)) seats) d
        ≡ (true, d ++ seats)
  unfolding load_seats
  load_seats_lem [] d r u new = ap (λ ys. (true, ys)) (sym (append_nothing d))
  load_seats_lem ((k, v) ∷ seats) d r u new =
      let grown : insert k (from_dict now (to_dict v)) d ≡ d ++ (k, v) ∷ [] =
        ap (λ x. insert k x d) (from_dict-to_dict now v) ∙ insert-new k v d new.0 in
      rw (r.0) (
        ap (load_seats (map (λ (e : ℕ × SeatState). (str e.0, to_dict e.1)) seats)) grown
        ∙ load_seats_lem seats (d ++ (k, v) ∷ []) r.1 u.1 (AreNew-append k v seats d u.0 new.1)
        ∙ ap (λ ys. (true, ys)) (append_assoc d (k, v) seats))

  -- A store that is written and read back into any store gives the same store: server, clock and all
  -- seats in their order, if no seat number stands twice and `int` reads the numbers that it has.
  pub store_from_dict-store_to_dict :
      (s other : StateStore)
      → IsReadable s.seats
      → IsUnique s.seats
      → store_from_dict (store_to_dict s) other ≡ (true, s)
  unfolding store_from_dict store_to_dict
  store_from_dict-store_to_dict s other r u =
      let loaded = load_seats_lem s.seats [] r u (AreNew-nothing s.seats) in
      ap (λ l. (l.0, record s { seats = l.1 })) loaded
