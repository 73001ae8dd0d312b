-- ===== src/Lobby/Matchmaking/Groups.antt =====
-- apps/lobby-api/src/matchmaking.ts: the groups of a queue.
use agent_poker.Base.Append.{All-append, append_assoc, append_nil}
use agent_poker.Base.{
  ◌≡◌, refl, sym, ap, ◌∙◌, subst, List, [], ◌∷◌, ◌++◌, filter_by, any, All, Bool-cases, inl, inr,
  arith, Bool, true, false, if◌then◌else◌,
}
use agent_poker.Base.Laws.{All-map}
use agent_poker.Lobby.Matchmaking.{
  Key, QueueEntry, Groups, key_of, key_eq, has_key, push_group, group_from,
}

abbrev pub of_key : Key → List QueueEntry → List QueueEntry
of_key k es = filter_by (has_key k) es

of_key-append :
    (k : Key) (xs ys : List QueueEntry) → of_key k (xs ++ ys) ≡ of_key k xs ++ of_key k ys
of_key-append k [] ys = refl
of_key-append k (x ∷ xs) ys = ground (arith, of_key-append k xs ys)

abbrev pub in_groups : Groups → QueueEntry → Bool
in_groups gs e = any (λ (g : Key × List QueueEntry). has_key g.0 e) gs

-- Each group holds the entries with its key, in order.
abbrev pub AreOf : List QueueEntry → Groups → Type 0
AreOf es gs = All (λ (g : Key × List QueueEntry). g.1 ≡ of_key g.0 es) gs

abbrev pub Cover : Groups → List QueueEntry → Type 0
Cover gs es = All (λ e. in_groups gs e ≡ true) es

key_eq_trans : (a b c : Key) → key_eq a b ≡ true → key_eq a c ≡ true → key_eq b c ≡ true
key_eq_trans a b c h k = ground arith

key_eq_refl : (a : Key) → key_eq a a ≡ true
key_eq_refl a = ground arith

in_groups-like :
    (e x : QueueEntry) (gs : Groups)
    → has_key (key_of e) x ≡ true
    → in_groups gs x ≡ true
    → in_groups gs e ≡ true
in_groups-like e x [] like h = h
in_groups-like e x (g ∷ gs) like h = ground (arith, in_groups-like e x gs like)

-- An entry whose key is in no group has no like among those grouped.
no_like :
    (e : QueueEntry) (gs : Groups) (es : List QueueEntry)
    → Cover gs es
    → in_groups gs e ≡ false
    → of_key (key_of e) es ≡ []
no_like e gs [] c h = refl
no_like e gs (x ∷ xs) c h = elim (Bool-cases (has_key (key_of e) x)) [
  | inl like ↦ cc (in_groups-like e x gs like c.0, h)
  | inr other ↦ rw other (no_like e gs xs c.1 h)
]

push-covers :
    (x e : QueueEntry) (gs : Groups) → in_groups gs x ≡ true → in_groups (push_group e gs) x ≡ true
push-covers x e [] h = cc
push-covers x e ((k, es) ∷ gs) h = ground (arith, push-covers x e gs)

push-covers_own : (e : QueueEntry) (gs : Groups) → in_groups (push_group e gs) e ≡ true
push-covers_own e [] = ground (arith, key_eq_refl (key_of e))
push-covers_own e ((k, es) ∷ gs) = ground (arith, push-covers_own e gs)

pub of_key-snoc :
    (k : Key) (es : List QueueEntry) (e : QueueEntry)
    → of_key k (es ++ e ∷ []) ≡ (if has_key k e then of_key k es ++ e ∷ [] else of_key k es)
of_key-snoc k [] e = ground arith
of_key-snoc k (x ∷ xs) e = ground (arith, of_key-snoc k xs e)

-- The keys of the groups differ.
abbrev pub Apart : Groups → Type 0
Apart [] = Unit
Apart ((k, es) ∷ gs) = All (λ (g : Key × List QueueEntry). key_eq k g.0 ≡ false) gs × Apart gs

-- The other groups do not change.
others_same :
    (k : Key) (done : List QueueEntry) (e : QueueEntry) (gs : Groups)
    → has_key k e ≡ true
    → All (λ (g : Key × List QueueEntry). key_eq k g.0 ≡ false) gs
    → AreOf done gs
    → AreOf (done ++ e ∷ []) gs
others_same k done e [] own apart h = tt
others_same k done e (g ∷ gs) own apart h =
    let differs : has_key g.0 e ≡ false = key_eq_other k g.0 (key_of e) own apart.0 in
    (h.0 ∙ sym (of_key-snoc g.0 done e ∙ rw differs refl), others_same k done e gs own apart.1 h.1)
  where
    key_eq_other : (a b c : Key) → key_eq a c ≡ true → key_eq a b ≡ false → key_eq b c ≡ false
    key_eq_other a b c h k = ground arith

push-AreOf :
    (done : List QueueEntry) (e : QueueEntry) (gs : Groups)
    → Apart gs
    → (in_groups gs e ≡ false → of_key (key_of e) done ≡ [])
    → AreOf done gs
    → AreOf (done ++ e ∷ []) (push_group e gs)
push-AreOf done e [] apart fresh h =
    (sym (of_key-snoc (key_of e) done e ∙ rw (key_eq_refl (key_of e), fresh refl) refl), tt)
push-AreOf done e ((k, es) ∷ gs) apart fresh h = elim (Bool-cases (has_key k e)) [
  | inl own ↦ rw own (
    ap (λ l. l ++ e ∷ []) h.0 ∙ sym (of_key-snoc k done e ∙ rw own refl),
    others_same k done e gs own apart.0 h.1,
  )
  | inr other ↦ rw other (
    h.0 ∙ sym (of_key-snoc k done e ∙ rw other refl),
    push-AreOf done e gs apart.1 (λ absent. fresh (rw other absent)) h.1,
  )
]

apart_push :
    (k : Key) (e : QueueEntry) (gs : Groups)
    → has_key k e ≡ false
    → All (λ (g : Key × List QueueEntry). key_eq k g.0 ≡ false) gs
    → All (λ (g : Key × List QueueEntry). key_eq k g.0 ≡ false) (push_group e gs)
apart_push k e [] other h = (other, tt)
apart_push k e ((j, es) ∷ gs) other h = elim (Bool-cases (has_key j e)) [
  | inl own ↦ rw own h
  | inr later ↦ rw later (h.0, apart_push k e gs other h.1)
]

push-Apart : (e : QueueEntry) (gs : Groups) → Apart gs → Apart (push_group e gs)
push-Apart e [] h = (tt, tt)
push-Apart e ((k, es) ∷ gs) h = elim (Bool-cases (has_key k e)) [
  | inl own ↦ rw own h
  | inr other ↦ rw other (apart_push k e gs other h.0, push-Apart e gs h.1)
]

-- What the groups of a list are.
pub record Grouped (es : List QueueEntry) (gs : Groups) : Type 0 where
  pub each : AreOf es gs
  pub apart : Apart gs
  pub cover : Cover gs es

push-Grouped :
    (done : List QueueEntry) (e : QueueEntry) (gs : Groups)
    → Grouped done gs
    → Grouped (done ++ e ∷ []) (push_group e gs)
push-Grouped done e gs h = record {
  each = push-AreOf done e gs h.apart (no_like e gs done h.cover) h.each;
  apart = push-Apart e gs h.apart;
  cover =
      All-append (λ x. in_groups (push_group e gs) x ≡ true) done (e ∷ [])
        (All-map _ _ (λ x c. push-covers x e gs c) done h.cover) (push-covers_own e gs, tt);
}

group_from-Grouped :
    (done es : List QueueEntry) (gs : Groups)
    → Grouped done gs
    → Grouped (done ++ es) (group_from gs es)
unfolding group_from
group_from-Grouped done [] gs h = subst (λ l. Grouped l gs) (sym (append_nil done)) h
group_from-Grouped done (e ∷ es) gs h =
    subst (λ l. Grouped l (group_from (push_group e gs) es)) (append_assoc done (e ∷ []) es)
      (group_from-Grouped (done ++ e ∷ []) es (push_group e gs) (push-Grouped done e gs h))

pub groups-Grouped : (es : List QueueEntry) → Grouped es (group_from [] es)
groups-Grouped es = group_from-Grouped [] es [] (record { each = tt; apart = tt; cover = tt })
