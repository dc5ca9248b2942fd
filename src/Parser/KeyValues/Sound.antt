-- ===== src/Parser/KeyValues/Sound.antt =====
-- What every map that `parseKeyVals` returns satisfies, whatever the line.
use makisu.Base.{
  ℕ, true, [], ◌∷◌, ◌++◌, ◌≡◌, refl, arith, Bytes, Bool-cases, inl, inr, bytes_eq, ok, err,
  bind-eq-ok, All, Dict, insert,
}
use makisu.Parser.Runes.{valid_key_rune, rune_bytes}
use makisu.Parser.KeyValues.{
  KeyValueState, space, key, equals, value, value_quote, value_end_quote, KeyValueBase,
  KeyValueStep, next_rune, end_of_input, run, parse_key_vals,
}

-- The text of valid key runes.
pub data IsKeyText : Bytes → Type 0 where
  nil : IsKeyText []
  snoc : {k : Bytes} (r : ℕ) → IsKeyText k → valid_key_rune r ≡ true → IsKeyText (k ++ rune_bytes r)

-- A key of at least one valid rune.
pub data IsKey : Bytes → Type 0 where
  key_runes :
      {k : Bytes} (r : ℕ) → IsKeyText k → valid_key_rune r ≡ true → IsKey (k ++ rune_bytes r)

abbrev pub HasKeys : Dict Bytes → Type 0
HasKeys = All (λ e. IsKey e.0)

insert-HasKeys : (k v : Bytes) (m : Dict Bytes) → IsKey k → HasKeys m → HasKeys (insert k v m)
unfolding insert
insert-HasKeys k v [] hk h = (hk, tt)
insert-HasKeys k v ((j, w) ∷ m) hk h = elim (Bool-cases (bytes_eq j k)) [
  | inl same ↦ rw same (hk, h.1)
  | inr other ↦ rw other (h.0, insert-HasKeys k v m hk h.1)
]

IsKey-IsKeyText : {k : Bytes} → IsKey k → IsKeyText k
IsKey-IsKeyText (key_runes r t h) = snoc r t h

IsKey-push : {k : Bytes} (r : ℕ) → IsKey k → valid_key_rune r ≡ true → IsKey (k ++ rune_bytes r)
IsKey-push r k h = key_runes r (IsKey-IsKeyText k) h

-- The first key rune, after an empty key.
IsKey-first : {k : Bytes} (r : ℕ) → k ≡ [] → valid_key_rune r ≡ true → IsKey (k ++ rune_bytes r)
IsKey-first r e h = rw e (key_runes r nil h)

-- What the current key is known to be in each state.
abbrev KeyInv : KeyValueState → Bytes → Type 0
KeyInv space k = k ≡ []
KeyInv value_end_quote k = k ≡ []
KeyInv _ k = IsKey k

abbrev Inv : KeyValueStep → Type 0
Inv (ok (q, s)) = HasKeys s.vars × KeyInv q s.curr_key
Inv (err e) = Unit {0}

next_rune-Inv :
    (q : KeyValueState) (s : KeyValueBase) (r : ℕ)
    → HasKeys s.vars
    → KeyInv q s.curr_key
    → Inv (next_rune q s r)
unfolding next_rune
next_rune-Inv space s r h k = ground (arith, IsKey-first r k)
next_rune-Inv key s r h k = ground (arith, IsKey-push r k)
next_rune-Inv equals s r h k = ground arith
next_rune-Inv value s r h k = ground (arith, insert-HasKeys s.curr_key s.curr_val s.vars k h)
next_rune-Inv value_quote s r h k = ground (arith, insert-HasKeys s.curr_key s.curr_val s.vars k h)
next_rune-Inv value_end_quote s r h k = ground arith

end_of_input-HasKeys :
    (q : KeyValueState) (s : KeyValueBase) {m : Dict Bytes}
    → HasKeys s.vars
    → KeyInv q s.curr_key
    → end_of_input q s ≡ ok m
    → HasKeys m
unfolding end_of_input
end_of_input-HasKeys value s h k e = ground (arith, insert-HasKeys s.curr_key s.curr_val s.vars k h)
end_of_input-HasKeys _ s h k e = ground arith

run-HasKeys :
    (rs : Bytes) (q : KeyValueState) (s : KeyValueBase) {m : Dict Bytes}
    → HasKeys s.vars
    → KeyInv q s.curr_key
    → run q s rs ≡ ok m
    → HasKeys m
unfolding run
run-HasKeys [] q s h k e = end_of_input-HasKeys q s h k e
run-HasKeys (r ∷ rs) q s h k e =
    let (qs, stepped, later) = bind-eq-ok (next_rune q s r) (λ qs. run qs.0 qs.1 rs) e in
    let inv : Inv (ok qs) = rw stepped at (next_rune-Inv q s r h k) in
    run-HasKeys rs qs.0 qs.1 inv.0 inv.1 later

-- Whatever the line, each key of the map that is returned is the text of one or more valid key
-- runes: no pair is ever stored under an empty or malformed key.
pub parse_key_vals-HasKeys :
    (input : Bytes) {m : Dict Bytes} → parse_key_vals input ≡ ok m → HasKeys m
unfolding parse_key_vals
parse_key_vals-HasKeys input e = run-HasKeys input space _ tt refl e
