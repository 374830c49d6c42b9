-- ===== src/Catalog/Generate/Tests.antt =====
-- A run with one repository, whose query answers one row.
use cvetool.Prelude.{Result, ok, false, List, [], ◌∷◌}
use cvetool.Text.{Str, codes}
use cvetool.Catalog.Nevra.{Nevra}
use cvetool.Catalog.Mapping.{RepositoryMapping}
use cvetool.Catalog.Json.{Catalog}
use cvetool.Catalog.HostPaths.{Host, missing}
use cvetool.Catalog.Dnf.{DnfOptions, CommandRunner}
use cvetool.Catalog.Generate.{GenerateOptions}

abbrev accept_all : Str → Result (Unit {0})
accept_all c = ok tt

abbrev same_text : Str → Str
same_text s = s

abbrev no_text : List (Str × List Str) → Str
no_text rows = []

abbrev empty_host : Host
empty_host = record {
  eval_symlinks = λ p. missing;
  lstat_symlink = λ p. missing;
  stat = λ p. missing;
  effective_user = 0;
  temp_dir = codes "/tmp";
}

abbrev one_row : CommandRunner
one_row path args = ok (codes "b\t0\t5\t9\tx86_64\n")

abbrev no_options : DnfOptions
no_options = record {
  path = [];
  install_root = [];
  scratch_dir = [];
  release_version = [];
  architecture = [];
  repo_dirs = [];
  architectures = [];
  legacy_host_query = false;
}

abbrev options : GenerateOptions
options = record {
  rhel_version = codes "9.4";
  target_release_version = codes "9.4";
  architecture = codes "x86_64";
  repository_ids = codes "baseos" ∷ [];
  output_path = codes "c.json";
  dnf_path = [];
  dnf = no_options;
}

abbrev baseos : RepositoryMapping
baseos = record {
  data_of = (codes "baseos", codes "c" ∷ []) ∷ [];
  repo_relative_urls = [];
  source = [];
}

abbrev baseos_catalog : Catalog
baseos_catalog = record {
  metadata = record {
    schema_version = codes "1";
    rhel_version = codes "9";
    architecture = codes "x86_64";
    repository_ids = codes "baseos" ∷ [];
    mapping_source = [];
    mapping_fingerprint = [];
    package_fingerprint = codes "baseos\0b|0|5|9|x86_64\n";
    generated_at = 0;
  };
  repositories = (codes "baseos", codes "c" ∷ []) ∷ [];
  packages =
      (codes "b|0|5|9|x86_64", record { repository_id = codes "baseos"; cpe = codes "c" } ∷ [])
      ∷ [];
}
