-- ===== src/Catalog/Nevra/Tests.antt =====
-- Runs on a package.
use cvetool.Prelude.{ok, ◌≡◌, refl, arith}
use cvetool.Text.{codes, join}
use cvetool.Catalog.Nevra.{Nevra, is_empty, parse_dnf_row, columns}
use cvetool.Catalog.Nevra.RoundTrip.{IsComplete, parse_dnf_row-join}
use cvetool.Catalog.Nevra.Key.{key_injective}

abbrev bash_nevra : Nevra
bash_nevra = record {
  name = codes "bash";
  epoch = codes "0";
  version = codes "5.1.8";
  release = codes "9.el9";
  arch = codes "x86_64";
}

bash-IsComplete : IsComplete bash_nevra
unfolding is_empty
bash-IsComplete = record {
  has_name = refl;
  has_epoch = refl;
  has_version = refl;
  has_release = refl;
  has_arch = refl;
}

parse_dnf_row-join_example : parse_dnf_row (join (columns bash_nevra) (codes "\t")) ≡ ok bash_nevra
parse_dnf_row-join_example = parse_dnf_row-join bash_nevra bash-IsComplete (ground arith)

key_injective_example : bash_nevra ≡ bash_nevra
key_injective_example = key_injective bash_nevra bash_nevra (ground arith) (ground arith) refl
