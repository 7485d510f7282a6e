-- ===== src/Application/Trim.antt =====
-- `Trim` of src/Application.cc.
use proto_rpc_multi_reactor.Prelude.{
  ◌↔◌, ◌≡◌, refl, sym, ap, subst, ◌∙◌, inl, inr, true, false, [], ◌∷◌, ◌++◌, append-nil, All,
  Bool-cases, List-cases,
}
use proto_rpc_multi_reactor.Prelude.Text.{Bytes}
use proto_rpc_multi_reactor.Application.{is_whitespace, trim_start, trim_end, trim}

abbrev pub IsBlank : Bytes → Type 0
IsBlank s = All (λ b. is_whitespace b ≡ true) s

-- The first byte, and the last one, are no whitespace.
abbrev pub StartsBare : Bytes → Type 0
StartsBare [] = Unit {0}
StartsBare (b ∷ bs) = is_whitespace b ≡ false

abbrev pub EndsBare : Bytes → Type 0
EndsBare [] = Unit {0}
EndsBare (b ∷ []) = is_whitespace b ≡ false
EndsBare (b ∷ c ∷ bs) = EndsBare (c ∷ bs)

trim_start-parts :
    (s : Bytes)
    → (pre : Bytes) × IsBlank pre × (s ≡ pre ++ trim_start s) × StartsBare (trim_start s)
unfolding trim_start
trim_start-parts [] = ([], tt, refl, tt)
trim_start-parts (b ∷ bs) = elim (Bool-cases (is_whitespace b)) [
  | inl ws ↦
      let (pre, blank, eq, bare) = trim_start-parts bs in
      rw (ws, trim_start) (b ∷ pre, (ws, blank), ap (λ r. b ∷ r) eq, bare)
  | inr bare ↦ rw (bare, trim_start) ([], tt, refl, bare)
]

trim_end-parts :
    (s : Bytes) → (post : Bytes) × IsBlank post × (s ≡ trim_end s ++ post) × EndsBare (trim_end s)
unfolding trim_end
trim_end-parts [] = ([], tt, refl, tt)
trim_end-parts (b ∷ bs) =
    let (post, blank, eq, bare) = trim_end-parts bs in
    elim (List-cases (trim_end bs)) [
      | inl e ↦
          let whole : b ∷ bs ≡ b ∷ post = ap (λ r. b ∷ r) (eq ∙ ap (λ r. r ++ post) e) in
          elim (Bool-cases (is_whitespace b)) [
            | inl ws ↦ rw (e, ws, trim_end) (b ∷ post, (ws, blank), whole, tt)
            | inr kept ↦ rw (e, kept, trim_end) (post, blank, whole, kept)
          ]
      | inr (c, cs, e) ↦
          rw (e, trim_end)
            (post, blank, ap (λ r. b ∷ r) (eq ∙ ap (λ r. r ++ post) e), subst EndsBare e bare)
    ]

StartsBare-front : (xs ys : Bytes) → StartsBare (xs ++ ys) → StartsBare xs
StartsBare-front [] ys h = tt
StartsBare-front (x ∷ xs) ys h = h

trim_start_blank : (pre s : Bytes) → IsBlank pre → StartsBare s → trim_start (pre ++ s) ≡ s
unfolding trim_start
trim_start_blank [] [] blank bare = refl
trim_start_blank [] (c ∷ s) blank bare = rw (bare, trim_start) refl
trim_start_blank (b ∷ pre) s (ws, blank) bare =
    rw (ws, trim_start) (trim_start_blank pre s blank bare)

trim_end_blank : (post : Bytes) → IsBlank post → trim_end post ≡ []
unfolding trim_end
trim_end_blank [] blank = refl
trim_end_blank (b ∷ post) (ws, blank) = rw (trim_end_blank post blank, ws, trim_end) refl

trim_end_bare : (s post : Bytes) → EndsBare s → IsBlank post → trim_end (s ++ post) ≡ s
unfolding trim_end
trim_end_bare [] post bare blank = trim_end_blank post blank
trim_end_bare (b ∷ []) post bare blank = rw (trim_end_blank post blank, bare, trim_end) refl
trim_end_bare (b ∷ c ∷ s) post bare blank =
    rw (trim_end_bare (c ∷ s) post bare blank, trim_end) refl

-- `Trim` takes whitespace off both ends, and leaves a string with none at either end.
trim_parts :
    (s : Bytes)
    → (pre : Bytes) × (post : Bytes) × IsBlank pre
      × IsBlank post
      × (s ≡ pre ++ (trim s ++ post))
      × StartsBare (trim s)
      × EndsBare (trim s)
unfolding trim
trim_parts s =
    let (pre, pre_blank, pre_eq, starts) = trim_start-parts s in
    let (post, post_blank, post_eq, ends) = trim_end-parts (trim_start s) in
    (
      pre,
      post,
      pre_blank,
      post_blank,
      pre_eq ∙ ap (λ r. pre ++ r) post_eq,
      StartsBare-front (trim_end (trim_start s)) post (subst StartsBare post_eq starts),
      ends,
    )

-- `Trim` of a string with no whitespace at either end, put between whitespace, is that string.
trim_between :
    (pre s post : Bytes)
    → IsBlank pre
    → IsBlank post
    → StartsBare s
    → EndsBare s
    → trim (pre ++ (s ++ post)) ≡ s
unfolding trim
trim_between pre [] post pre_blank post_blank starts ends =
    trim_end_all (pre ++ post) (blank_append pre post pre_blank post_blank)
  where
    blank_append : (xs ys : Bytes) → IsBlank xs → IsBlank ys → IsBlank (xs ++ ys)
    blank_append [] ys p q = q
    blank_append (x ∷ xs) ys (w, p) q = (w, blank_append xs ys p q)

    trim_end_all : (xs : Bytes) → IsBlank xs → trim_end (trim_start xs) ≡ []
    trim_end_all xs p =
        ap trim_end (ap trim_start (sym (append-nil xs)) ∙ trim_start_blank xs [] p tt)
trim_between pre (c ∷ s) post pre_blank post_blank starts ends =
    ap trim_end (trim_start_blank pre ((c ∷ s) ++ post) pre_blank starts)
    ∙ trim_end_bare (c ∷ s) post ends post_blank

-- `Trim` of `s` is `t` exactly when `s` is `t` between whitespace, and `t` has no whitespace at either
-- end.
pub trim_iff :
    (s t : Bytes)
    → (trim s ≡ t) ↔ (
        (pre : Bytes) × (post : Bytes) × IsBlank pre
        × IsBlank post
        × (s ≡ pre ++ (t ++ post))
        × StartsBare t
        × EndsBare t)
trim_iff s t = (
  λ e.
      subst
        (λ t.
          (pre : Bytes) × (post : Bytes) × IsBlank pre
          × IsBlank post
          × (s ≡ pre ++ (t ++ post))
          × StartsBare t
          × EndsBare t)
        e (trim_parts s),
  λ (pre, post, pre_blank, post_blank, eq, starts, ends).
      ap trim eq ∙ trim_between pre t post pre_blank post_blank starts ends,
)
