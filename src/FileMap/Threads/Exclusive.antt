-- ===== src/FileMap/Threads/Exclusive.antt =====
-- The locks of the entries: who may hold one at the same time.
use makisu.Base.{
  ℕ, ◌<◌, Bool, true, false, ◌&&◌, ◌≡◌, ◌≢◌, inl, inr, sym, ◌∙◌, subst, arith, if◌then◌else◌, Bytes,
}
use makisu.FileMap.{store}
use makisu.FileMap.Elements.{==-eq}
use makisu.FileMap.Threads.{
  Method, Place, System, Step, for_evict, for_store, idle, waiting, locked, inside, is_shared,
  holds, method_of, blocks, set_place, look_up, begin_evict, lock, enter, give_up, leave,
  store_entry,
}
use makisu.FileMap.Threads.Older.{moved, names_entry, IsOlder}

-- Two goroutines that hold the lock of one entry both hold it to read.
abbrev pub IsExclusive : System → Type 0
IsExclusive s =
    (t u i : ℕ)
    → t ≢ u
    → holds i (s.places t) ≡ true
    → holds i (s.places u) ≡ true
    → is_shared (method_of (s.places t)) && is_shared (method_of (s.places u)) ≡ true

holds-names_entry : (i : ℕ) (p : Place) → holds i p ≡ true → names_entry i p ≡ true
holds-names_entry i idle h = h
holds-names_entry i (waiting m name j) h = absurd (ground (arith, h))
holds-names_entry i (locked m name j) h = h
holds-names_entry i (inside m name j) h = h

abbrev pub AreShared : Place → Place → Type 0
AreShared p q = is_shared (method_of p) && is_shared (method_of q) ≡ true

AreShared-sym : (p q : Place) → AreShared p q → AreShared q p
AreShared-sym p q h = ground (arith, h)

set_place-exclusive :
    (t : ℕ) (p : Place) (places : ℕ → Place)
    → ((a b i : ℕ)
        → a ≢ b
        → holds i (places a) ≡ true
        → holds i (places b) ≡ true
        → AreShared (places a) (places b))
    → ((u i : ℕ) → t ≢ u → holds i p ≡ true → holds i (places u) ≡ true → AreShared p (places u))
    → (a b i : ℕ) → a ≢ b
    → holds i (set_place t p places a) ≡ true
    → holds i (set_place t p places b) ≡ true
    → AreShared (set_place t p places a) (set_place t p places b)
set_place-exclusive t p places old new a b i ne ha hb = elim (moved t a p places) [
  | inl (ta, at_a) ↦ elim (moved t b p places) [
    | inl (tb, at_b) ↦ absurd (ne (sym ta ∙ tb))
    | inr (tb, at_b) ↦ rw (at_a, at_b) (new b i tb (rw at_a at ha) (rw at_b at hb))
  ]
  | inr (ta, at_a) ↦ elim (moved t b p places) [
    | inl (tb, at_b) ↦
        rw (at_a, at_b) (AreShared-sym p (places a) (new a i ta (rw at_b at hb) (rw at_a at ha)))
    | inr (tb, at_b) ↦ rw (at_a, at_b) (old a b i ne (rw at_a at ha) (rw at_b at hb))
  ]
]

-- A lock that is taken is only shared with the others that read.
blocks-shared :
    (m : Method) (name : Bytes) (i j : ℕ) (q : Place)
    → blocks m i q ≡ false
    → holds j (locked m name i) ≡ true
    → holds j q ≡ true
    → AreShared (locked m name i) q
unfolding blocks
blocks-shared m name i j q free hp hq =
    ground (arith, free, subst (λ k. holds k q ≡ true) (==-eq j i hp) hq)

nothing-held : {A : Type 0} (i : ℕ) → holds i idle ≡ true → A
nothing-held i h = absurd (ground (arith, h))

stored-exclusive :
    (stored : Bool) (name : Bytes) (n i : ℕ) (q : Place)
    → (names_entry n q ≡ true → n < n)
    → holds i (if stored then inside for_store name n else idle) ≡ true
    → holds i q ≡ true
    → AreShared (if stored then inside for_store name n else idle) q
stored-exclusive false name n i q old hp hq = nothing-held i hp
stored-exclusive true name n i q old hp hq =
    absurd
      (omega (arith, old (holds-names_entry n q (subst (λ k. holds k q ≡ true) (==-eq i n hp) hq))))

pub Step-IsExclusive : {s s' : System} → Step s s' → IsOlder s → IsExclusive s → IsExclusive s'
Step-IsExclusive {s} (look_up t m name i e found) old ex =
    set_place-exclusive t (waiting m name i) s.places ex
      (λ u j ne hp hq. absurd (ground (arith, hp)))
Step-IsExclusive {s} (begin_evict t i e found) old ex =
    set_place-exclusive t (waiting for_evict (s.fm.entries i).file_name i) s.places ex
      (λ u j ne hp hq. absurd (ground (arith, hp)))
Step-IsExclusive {s} (lock t m name i e free) old ex =
    set_place-exclusive t (locked m name i) s.places ex
      (λ u j ne hp hq. blocks-shared m name i j (s.places u) (free u) hp hq)
Step-IsExclusive {s} (enter t now m name i e found) old ex =
    set_place-exclusive t (inside m name i) s.places ex
      (λ u j ne hp hq. subst (λ p. AreShared p (s.places u)) e (ex t u j ne (rw e hp) hq))
Step-IsExclusive {s} (give_up t now m name i e lost) old ex =
    set_place-exclusive t idle s.places ex (λ u j ne hp hq. nothing-held j hp)
Step-IsExclusive {s} (leave t m name i result e) old ex =
    set_place-exclusive t idle s.places ex (λ u j ne hp hq. nothing-held j hp)
Step-IsExclusive {s} (store_entry t now name slot e) old ex =
    set_place-exclusive t
      (if (store now name s.next slot s.fm).0 then inside for_store name s.next else idle) s.places
      ex
      (λ u j ne hp hq.
        stored-exclusive (store now name s.next slot s.fm).0 name s.next j (s.places u)
          (old.0 u s.next) hp hq)
