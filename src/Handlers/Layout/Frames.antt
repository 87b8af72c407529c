-- ===== src/Handlers/Layout/Frames.antt =====
-- What a layout does to the body that it is given.
use delivery_api.Base.{
  ◌≡◌, ◌≢◌, ◌∙◌, sym, refl, true, false, Bool-cases, inl, inr, [], Str, ◌++◌, codes, append-nil,
  str_eq,
}
use delivery_api.Handlers.Layout.{
  page_text, page_start, page_mark, mark_url, page_wordmark, wordmark_of, card_start, card_content,
  page_end, is_construct, construct_layout, apply_layout,
}

-- Under every name but "" and "construct" the body passes unchanged.
pub apply_layout_other :
    (name space subject html : Str)
    → is_construct name ≡ false
    → apply_layout name space subject html ≡ html
unfolding apply_layout
apply_layout_other name space subject html other =
    rw other (elim (Bool-cases (str_eq name (codes "none"))) [
      | inl plain ↦ rw plain refl
      | inr unknown ↦ rw unknown refl
    ])

pub apply_layout-nonempty :
    (name space subject html : Str)
    → is_construct name ≡ true
    → apply_layout name space subject html ≢ []
unfolding apply_layout construct_layout
apply_layout-nonempty name space subject html own h = let page = rw own at h in cc

-- The page of a space and a subject is one frame, in which the body stands as it is given; so two
-- bodies with the same page are equal.
pub apply_layout-frame :
    (name space subject : Str)
    → (before : Str) × (after : Str) × ((html : Str)
        → apply_layout name space subject html ≡ before ++ html ++ after)
unfolding apply_layout construct_layout
apply_layout-frame name space subject = elim (Bool-cases (is_construct name)) [
  | inr other ↦
      ([], [], λ html. apply_layout_other name space subject html other ∙ sym (append-nil html))
  | inl own ↦ (
    page_text page_start
        ++ subject
        ++ page_text page_mark
        ++ mark_url
        ++ page_text page_wordmark
        ++ wordmark_of space
        ++ page_text card_start
        ++ subject
        ++ page_text card_content,
    page_text page_end,
    λ html. rw own refl,
  )
]
