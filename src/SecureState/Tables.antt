-- ===== src/SecureState/Tables.antt =====
-- aismixer_secure.py: a table of sessions, whichever kind they are: its size, what holds of every
-- session, and the number of the nonces that its sessions keep.
use mathlib.Core.Path.{subst}
use aismixer.Prelude.{
  ℕ, suc, ◌+◌, ◌≤◌, ◌<◌, none, some, [], ◌∷◌, ◌≡◌, arith, Text, nat_eq, text_eq, ◌==◌, list_beq_iff,
  length, Bool-cases, inl, inr,
}
use aismixer.Prelude.Dict.{
  Dict, lookup, insert, remove, Distinct, lookup-insert, lookup-remove, Distinct-insert,
  Distinct-remove, length-insert, length-remove,
}

module _ {V : Type 0} (Holds : V → Type 0) where
  pub record IsTable (limit : ℕ) (d : Dict Text V) : Type 0 where
    pub distinct : Distinct d
    pub some_room : 1 ≤ limit
    pub within : length d ≤ limit
    pub all : (a : Text) (v : V) → lookup a d ≡ some v → Holds v

  pub IsTable-remove :
      (limit : ℕ) (d : Dict Text V) (k : Text) → IsTable limit d → IsTable limit (remove k d)
  IsTable-remove limit d k h = record {
    distinct = Distinct-remove k d h.distinct;
    some_room = h.some_room;
    within = ground (arith, h.within, length-remove k d);
    all = λ a v q. h.all a v (ground (arith, lookup-remove k a d h.distinct));
  }

  insert_all :
      (d : Dict Text V) (k : Text) (w : V)
      → ((a : Text) (v : V) → lookup a d ≡ some v → Holds v)
      → Holds w
      → (a : Text) (v : V) → lookup a (insert k w d) ≡ some v
      → Holds v
  insert_all d k w h hw a v q = elim (Bool-cases (k == a)) [
    | inl same ↦ subst Holds (ground (arith, lookup-insert k a w d)) hw
    | inr other ↦ h a v (ground (arith, lookup-insert k a w d))
  ]

  pub IsTable-insert_new :
      (limit : ℕ) (d : Dict Text V) (k : Text) (w : V)
      → IsTable limit d
      → lookup k d ≡ none
      → length d < limit
      → Holds w
      → IsTable limit (insert k w d)
  IsTable-insert_new limit d k w h new room hw = record {
    distinct = Distinct-insert k w d h.distinct;
    some_room = h.some_room;
    within = ground (arith, length-insert k w d);
    all = insert_all d k w h.all hw;
  }

  pub IsTable-update :
      (limit : ℕ) (d : Dict Text V) (k : Text) (v w : V)
      → IsTable limit d
      → lookup k d ≡ some v
      → Holds w
      → IsTable limit (insert k w d)
  IsTable-update limit d k v w h there hw = record {
    distinct = Distinct-insert k w d h.distinct;
    some_room = h.some_room;
    within = ground (arith, h.within, length-insert k w d);
    all = insert_all d k w h.all hw;
  }

module _ {V : Type 0} (count : V → ℕ) where
  abbrev pub total : Dict Text V → ℕ
  total [] = 0
  total ((a, v) ∷ d) = count v + total d

  pub total-remove :
      (k : Text) (v : V) (d : Dict Text V)
      → lookup k d ≡ some v
      → total d ≡ count v + total (remove k d)
  unfolding lookup remove
  total-remove k v [] h = absurd (ground arith)
  total-remove k v ((a, w) ∷ d) h = ground (arith, total-remove k v d)

  pub total-insert_new :
      (k : Text) (v : V) (d : Dict Text V)
      → lookup k d ≡ none
      → total (insert k v d) ≡ total d + count v
  unfolding lookup insert
  total-insert_new k v [] h = omega arith
  total-insert_new k v ((a, w) ∷ d) h = ground (arith, total-insert_new k v d)

  pub total-update :
      (k : Text) (v w : V) (d : Dict Text V)
      → lookup k d ≡ some v
      → total (insert k w d) + count v ≡ total d + count w
  unfolding lookup insert
  total-update k v w [] h = absurd (ground arith)
  total-update k v w ((a, x) ∷ d) h = ground (arith, total-update k v w d)

module _ {V : Type 0} where
  pub length-remove_present :
      (a : Text) (v : V) (d : Dict Text V)
      → lookup a d ≡ some v
      → length d ≡ suc (length (remove a d))
  length-remove_present a v d q = ground (arith, length-remove a d)

  -- the head of the table, under its key
  pub remove_head : (a : Text) (v : V) (d : Dict Text V) → remove a ((a, v) ∷ d) ≡ d
  unfolding remove
  remove_head a v d = ground (arith, list_beq_iff a a)

  pub lookup_head : (a : Text) (v : V) (d : Dict Text V) → lookup a ((a, v) ∷ d) ≡ some v
  unfolding lookup
  lookup_head a v d = ground (arith, list_beq_iff a a)

  pub length-insert_new :
      (a : Text) (v : V) (d : Dict Text V)
      → lookup a d ≡ none
      → length (insert a v d) ≡ suc (length d)
  length-insert_new a v d q = ground (arith, length-insert a v d)
