-- ===== src/Catalog/Nevra/Key.antt =====
-- `Key` of catalog/nevra.go names one identity only, as long as no field holds a vertical bar.
use cvetool.Prelude.{All, ◌≡◌, sym, ap, ◌∙◌, arith}
use cvetool.Text.{split}
use cvetool.Text.Split.Laws.{Lacks, split-join}
use cvetool.Catalog.Nevra.{Nevra, columns, key}

of_columns : (m n : Nevra) → columns m ≡ columns n → m ≡ n
of_columns m n h = ground arith

split-key : (n : Nevra) → All (Lacks b'|') (columns n) → split (key n) b'|' ≡ columns n
split-key n h = unfold key in split-join n.name _ b'|' h

-- Two identities whose fields hold no vertical bar and that have the same key are equal.
pub key_injective :
    (m n : Nevra)
    → All (Lacks b'|') (columns m)
    → All (Lacks b'|') (columns n)
    → key m ≡ key n
    → m ≡ n
key_injective m n hm hn h =
    of_columns m n (sym (split-key m hm) ∙ (ap (λ k. split k b'|') h ∙ split-key n hn))
