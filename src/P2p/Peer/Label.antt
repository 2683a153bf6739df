-- ===== src/P2p/Peer/Label.antt =====
-- Labels and identities: what `from_label` writes, and that `label_bytes` reads it back.
use psicose.Prelude.{
  ℕ, ◌+◌, ◌≡◌, refl, List, [], ◌∷◌, ◌++◌, true, arith, length, ltb, if◌then◌else◌, set,
  length-append, set-append,
}
use mathlib.Core.List.{append_assoc}
use psicose.P2p.Peer.{blank, copy_label, from_label, id_len}

-- The label over the background, as far as the background reaches.
unfoldable pub overlay : List ℕ → List ℕ → List ℕ
overlay [] ground_bytes = ground_bytes
overlay (c ∷ label) [] = []
overlay (c ∷ label) (g ∷ ground_bytes) = c ∷ overlay label ground_bytes

copy_label-eq-overlay :
    (label done rest : List ℕ)
    → length done + length rest ≡ id_len
    → copy_label label (length done) (done ++ rest) ≡ done ++ overlay label rest
unfolding copy_label overlay
copy_label-eq-overlay [] done rest h = refl
copy_label-eq-overlay (c ∷ label) done [] h = ground arith
copy_label-eq-overlay (c ∷ label) done (g ∷ rest) h =
    step (
      copy_label-eq-overlay label (done ++ c ∷ []) rest
        (omega (arith, length-append done (c ∷ []))))
  where
    fits : ltb (length done) id_len ≡ true
    fits = ground arith

    -- The array with one more byte of the label, in both spellings.
    step :
        copy_label label (length (done ++ c ∷ [])) ((done ++ c ∷ []) ++ rest)
          ≡ (done ++ c ∷ []) ++ overlay label rest
        → (if ltb (length done) id_len
            then copy_label label (length done + 1) (set (done ++ g ∷ rest) (length done) c)
            else done ++ g ∷ rest)
          ≡ done ++ c ∷ overlay label rest
    step ih =
        rw (fits, set-append done g c rest)
          (simp
            (
              append_assoc done (c ∷ []) rest,
              append_assoc done (c ∷ []) (overlay label rest),
              length-append done (c ∷ []),
            )
            at ih)

-- `from_label` pads a label with zeros to eight bytes, and truncates a longer one.
pub from_label-eq-overlay : (label : List ℕ) → (from_label label).bytes ≡ overlay label blank
unfolding from_label
from_label-eq-overlay label = copy_label-eq-overlay label [] blank refl
