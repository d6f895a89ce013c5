-- ===== src/Scenarios/Configs.antt =====
-- The daemon without a file, and with a file that opens the queue.
use colony_firewall_control.Prelude.{◌≡◌, refl, [], false, some, Text, Result, ok}
use colony_firewall_control.Config.File.{ConfigToml, Source, found, default_toml, fold_profile}
use colony_firewall_control.Config.File.Safe.{
  written, IsClosed, load_or_default-IsClosed, load_or_default-written,
}

-- A parser that knows one file.
abbrev parser : Text → Result Text ConfigToml
parser txt = ok (record default_toml { provenance = record { enabled = false } })

abbrev file : Source Text
file = found []

abbrev stored : ConfigToml
stored = record default_toml { provenance = record { enabled = false } }

load_or_default-IsClosed_example :
    (raw : ConfigToml) × (written parser file ≡ some raw)
    × IsClosed raw (fold_profile stored)
    × (false ≡ raw.provenance.enabled)
load_or_default-IsClosed_example =
    load_or_default-IsClosed parser file (fold_profile stored) false
      (load_or_default-written parser file stored refl refl)
