-- ===== src/Tests/Settings.antt =====
-- The properties of the configuration and of the process, applied.
use umleitung.Base.{◌≡◌, refl, true, All, List, [], ◌∷◌, arith}
use umleitung.Base.Text.{Text, codes, ◌==◌}
use umleitung.Config.Valid.{IsConfigValid}
use umleitung.Config.Accepted.{resolve-IsConfigValid}
use umleitung.Config.Resolve.{mirror_of, head_of, resolve, valid}
use umleitung.Config.Refused.{is_decoded}
use umleitung.Config.Complete.{HasPasswords, meant, resolve-meant}
use umleitung.Config.Defaults.{opt_string, default_int}
use umleitung.Labels.{label_keywords}
use umleitung.Config.Defaults.{default_str}
use umleitung.Windows.{new}
use umleitung.Session.{options_of}
use umleitung.Session.Choices.{IsKeyword, resolve-label_keywords}
use umleitung.Process.{healthz}
use umleitung.Process.Health.{Beat, IsMeasurable, beaten, Verdict, healthz-Verdict}
use umleitung.Tests.ToyConfig.{no_file, raw_config, mirror, config, config-valid}

resolve-IsConfigValid_example : IsConfigValid config
resolve-IsConfigValid_example = resolve-IsConfigValid no_file raw_config config config-valid

abbrev some_labels : List Text
some_labels = codes "My Label" ∷ codes "__" ∷ codes "Work" ∷ []

resolve-label_keywords_example :
    All
      (λ m.
        All
          (IsKeyword m.labels.keyword_prefix)
          (label_keywords (new (options_of m (codes "All Mail") [])) some_labels))
      config.mirrors
resolve-label_keywords_example =
    resolve-label_keywords no_file raw_config config (codes "All Mail") [] some_labels config-valid

-- two mirrors with an interval of 15 minutes, of which the second is late
abbrev beats : List Beat
beats = record { of = mirror; second = 1000 } ∷ record { of = mirror; second = 1 } ∷ []

beats-IsMeasurable : All IsMeasurable beats
unfolding mirror_of default_int
beats-IsMeasurable = ((refl, omega arith), ((refl, omega arith), tt))

healthz-Verdict_example : Verdict 3000000000000 beats (healthz 3000000000000 (beaten beats))
healthz-Verdict_example = healthz-Verdict 3000000000000 beats beats-IsMeasurable

decoded : is_decoded (opt_string raw_config.health_addr) ≡ true
unfolding opt_string
decoded = refl

mirror-HasPasswords : All (HasPasswords no_file (head_of raw_config).state_dir) raw_config.mirrors
unfolding ◌==◌
mirror-HasPasswords = ((refl, refl), tt)

meant-IsConfigValid : IsConfigValid (meant no_file raw_config)
unfolding head_of default_str ◌==◌
meant-IsConfigValid = resolve-IsConfigValid no_file raw_config config config-valid

resolve-meant_example : resolve no_file raw_config ≡ valid (meant no_file raw_config)
resolve-meant_example =
    resolve-meant no_file raw_config decoded mirror-HasPasswords meant-IsConfigValid
