-- ===== src/Idempotency/Json/Laws.antt =====
-- Which bodies of a request have one canonical text.
use facturify.Base.{◌≡◌, ◌≢◌, refl, sym, ◌∙◌, true, false, List, Bool-cases, inl, inr}
use facturify.Js.Text.{Text}
use facturify.Js.Number.{Num}
use facturify.Idempotency.Json.Sort.{insert_entry, sort_entries, insert_entry_comm}
use facturify.Idempotency.Json.{
  Json, array, object, Items, nil, cons, Fields, end, field, CanonicalEntry, is_omitted,
  is_undefined, canonicalize_json, canonicalize_items, entries,
}

-- One body is another with the properties of its objects in another order, at any depth, and with
-- properties added or removed that are undefined or have a sensitive name.
module _ (wide : Text → Text) where
  mutual
    pub data Rearranged : Json → Json → Type 0 where
      same : {j : Json} → Rearranged j j
      elements : {xs ys : Items} → RearrangedItems xs ys → Rearranged (array xs) (array ys)
      properties : {fs gs : Fields} → RearrangedFields fs gs → Rearranged (object fs) (object gs)

    pub data RearrangedItems : Items → Items → Type 0 where
      none_left : RearrangedItems nil nil
      both :
          {x y : Json} {xs ys : Items}
          → Rearranged x y
          → RearrangedItems xs ys
          → RearrangedItems (cons x xs) (cons y ys)

    pub data RearrangedFields : Fields → Fields → Type 0 where
      no_fields : RearrangedFields end end
      kept :
          {k : Text} {v w : Json} {fs gs : Fields}
          → Rearranged v w
          → RearrangedFields fs gs
          → RearrangedFields (field k v fs) (field k w gs)
      swapped :
          {k l : Text} {v w : Json} {fs : Fields}
          → k ≢ l
          → RearrangedFields (field k v (field l w fs)) (field l w (field k v fs))
      omitted :
          {k : Text} {v : Json} {fs : Fields}
          → is_omitted wide k v ≡ true
          → RearrangedFields (field k v fs) fs
      backwards : {fs gs : Fields} → RearrangedFields fs gs → RearrangedFields gs fs
      in_steps :
          {fs gs hs : Fields}
          → RearrangedFields fs gs
          → RearrangedFields gs hs
          → RearrangedFields fs hs

  undefined-same : {j k : Json} → Rearranged j k → is_undefined j ≡ is_undefined k
  undefined-same same = refl
  undefined-same (elements r) = refl
  undefined-same (properties r) = refl

  is_omitted-same :
      {j k : Json} (key : Text) → Rearranged j k → is_omitted wide key j ≡ is_omitted wide key k
  unfolding is_omitted
  is_omitted-same key r = rw (undefined-same r) refl

  module _ (show : Num → Text) where
    sorted : Fields → List CanonicalEntry
    unfolding sort_entries entries
    sorted fs = sort_entries (entries show wide fs)

    sorted-omitted :
        (k : Text) (v : Json) (fs : Fields)
        → is_omitted wide k v ≡ true
        → sorted (field k v fs) ≡ sorted fs
    unfolding sorted entries
    sorted-omitted k v fs h = rw (h, entries) refl

    sorted-kept :
        (k : Text) (v : Json) (fs : Fields)
        → is_omitted wide k v ≡ false
        → sorted (field k v fs) ≡ insert_entry (k, canonicalize_json show wide v) (sorted fs)
    unfolding sorted entries sort_entries
    sorted-kept k v fs h = rw (h, entries) refl

    sorted-swapped :
        (k l : Text) (v w : Json) (fs : Fields)
        → k ≢ l
        → sorted (field k v (field l w fs)) ≡ sorted (field l w (field k v fs))
    sorted-swapped k l v w fs h =
        let ek = λ (fs : Fields). sorted-kept k v fs in
        let el = λ (fs : Fields). sorted-kept l w fs in
        elim (Bool-cases (is_omitted wide k v)) [
          | inl ov ↦ elim (Bool-cases (is_omitted wide l w)) [
            | inl ow ↦
                rw
                  (
                    sorted-omitted k v (field l w fs) ov,
                    sorted-omitted l w fs ow,
                    sorted-omitted l w (field k v fs) ow,
                  )
                  (sym (sorted-omitted k v fs ov))
            | inr kw ↦
                rw
                  (
                    sorted-omitted k v (field l w fs) ov,
                    el fs kw,
                    el (field k v fs) kw,
                    sorted-omitted k v fs ov,
                  )
                  refl
          ]
          | inr kv ↦ elim (Bool-cases (is_omitted wide l w)) [
            | inl ow ↦
                rw
                  (
                    ek (field l w fs) kv,
                    sorted-omitted l w fs ow,
                    sorted-omitted l w (field k v fs) ow,
                    ek fs kv,
                  )
                  refl
            | inr kw ↦
                rw (ek (field l w fs) kv, el fs kw, el (field k v fs) kw, ek fs kv)
                  (insert_entry_comm (k, canonicalize_json show wide v)
                    (l, canonicalize_json show wide w) (sorted fs) h)
          ]
        ]

    mutual
      unfolding canonicalize_json canonicalize_items sorted sort_entries

      pub canonical-same :
          {j k : Json}
          → Rearranged j k
          → canonicalize_json show wide j ≡ canonicalize_json show wide k
      canonical-same same = refl
      canonical-same (elements r) = rw (items-same r) refl
      canonical-same (properties r) = rw (sorted-same r) refl

      items-same :
          {xs ys : Items}
          → RearrangedItems xs ys
          → canonicalize_items show wide xs ≡ canonicalize_items show wide ys
      items-same none_left = refl
      items-same (both x xs) = rw (undefined-same x, canonical-same x, items-same xs) refl

      sorted-same : {fs gs : Fields} → RearrangedFields fs gs → sorted fs ≡ sorted gs
      sorted-same no_fields = refl
      sorted-same (kept {k} {v} {w} {fs} {gs} x r) = elim (Bool-cases (is_omitted wide k w)) [
        | inl o ↦
            sorted-omitted k v fs (is_omitted-same k x ∙ o)
            ∙ sorted-same r
            ∙ sym (sorted-omitted k w gs o)
        | inr o ↦
            sorted-kept k v fs (is_omitted-same k x ∙ o)
            ∙ rw (canonical-same x, sorted-same r) refl
            ∙ sym (sorted-kept k w gs o)
      ]
      sorted-same (swapped {k} {l} {v} {w} {fs} h) = sorted-swapped k l v w fs h
      sorted-same (omitted {k} {v} {fs} h) = sorted-omitted k v fs h
      sorted-same (backwards r) = sym (sorted-same r)
      sorted-same (in_steps r q) = sorted-same r ∙ sorted-same q

    -- Two bodies have one canonical text, or fail with one error, if one is the other with the properties
    -- of its objects in another order, at any depth, and with properties added or removed that are
    -- undefined or have a sensitive name.
    pub canonicalize_json-same :
        (j k : Json)
        → Rearranged j k
        → canonicalize_json show wide j ≡ canonicalize_json show wide k
    canonicalize_json-same j k r = canonical-same r
