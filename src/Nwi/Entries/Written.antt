-- ===== src/Nwi/Entries/Written.antt =====
-- Both halves of an array written over, in either order.
use configd_extra.Base.{
  ℕ, ◌*◌, ◌≤◌, ◌≡◌, ◌∙◌, inl, inr, List, length, length-splice, arith, segment, splice,
  segment-splice_self, segment-splice_other,
}
use configd_extra.Nwi.State.{Ifstate}

module _ (l : List Ifstate) (max n4 n6 : ℕ) (ys4 ys6 : List Ifstate) (slots : length l ≡ 2 * max)
    (fits4 : n4 ≤ max) (fits6 : n6 ≤ max) (len4 : n4 ≡ length ys4) (len6 : n6 ≡ length ys6) where
  pub written_v4_v6 :
      (segment (splice (splice l 0 ys4) max ys6) 0 n4 ≡ ys4)
      × (segment (splice (splice l 0 ys4) max ys6) max n6 ≡ ys6)
      × (length (splice (splice l 0 ys4) max ys6) ≡ 2 * max)
  written_v4_v6 = (
    segment-splice_other (splice l 0 ys4) max 0 n4 ys6 (inl (omega arith))
        ∙ segment-splice_self l 0 n4 ys4 len4 (omega arith),
    segment-splice_self (splice l 0 ys4) max n6 ys6 len6 (omega (arith, length-splice l 0 ys4)),
    length-splice (splice l 0 ys4) max ys6 ∙ length-splice l 0 ys4 ∙ slots,
  )

  pub written_v6_v4 :
      (segment (splice (splice l max ys6) 0 ys4) 0 n4 ≡ ys4)
      × (segment (splice (splice l max ys6) 0 ys4) max n6 ≡ ys6)
      × (length (splice (splice l max ys6) 0 ys4) ≡ 2 * max)
  written_v6_v4 = (
    segment-splice_self (splice l max ys6) 0 n4 ys4 len4 (omega (arith, length-splice l max ys6)),
    segment-splice_other (splice l max ys6) 0 max n6 ys4 (inr (omega arith))
        ∙ segment-splice_self l max n6 ys6 len6 (omega arith),
    length-splice (splice l max ys6) 0 ys4 ∙ length-splice l max ys6 ∙ slots,
  )
