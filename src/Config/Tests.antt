-- ===== src/Config/Tests.antt =====
-- The defaults, and configurations that Validate refuses.
use irl_universal_ingest.Prelude.{
  ◌≡◌, ◌≤◌, ◌⊎◌, ◌↔◌, refl, pos, [], length, text_beq, Text, some, none,
}
use irl_universal_ingest.Go.Strings.{codes}
use irl_universal_ingest.Config.{
  Config, default, validate, passphrase_short, port_used_twice, port_uses, load, contents, Decoded,
  decoded, ok, check_passphrase, find_clash,
}
use irl_universal_ingest.Config.Valid.{Distinct, validate_iff}

abbrev short : Config
short = record default { srt = record default.srt { passphrase = codes "secret" } }

-- A decoder that knows one document.
abbrev decoder : Text → Config → Decoded
decoder s c = decoded (record c { source_timeout = pos 5 })

test_short : validate short ≡ some (passphrase_short 6)
unfolding validate default check_passphrase text_beq
test_short = refl

test_twice :
    validate (record default { stats_port = pos 8890 })
    ≡ some (port_used_twice (pos 8890) (codes "srt.port") (codes "stats_port"))
unfolding validate default text_beq find_clash
test_twice = refl

loaded :
    load decoder (contents (codes "source_timeout: 5ns"))
    ≡ ok (record default { source_timeout = pos 5 })
unfolding load default validate text_beq
loaded = refl

validate_iff_example : (validate default ≡ none) ↔ (
    ((default.srt.passphrase ≡ []) ⊎ (10 ≤ length default.srt.passphrase))
    × Distinct (port_uses default))
validate_iff_example = validate_iff default
