-- ===== src/Tests/Tagger.antt =====
-- A static tag and a condition for the same tag.
use nodeagentx.Prelude.{String, some, [], ◌∷◌, map, ◌≡◌, refl}
use nodeagentx.Prelude.Maps.{lookup}
use nodeagentx.Collector.Metric.{Metric, gauge}
use nodeagentx.Collector.Tagger.{Tagger, tag_all, conditional, untagged, tag_all-owed_tag}

abbrev levels : Tagger
levels = record {
  static_tags = ("level", "normal") ∷ ("env", "production") ∷ [];
  conditions = record { tag = "level"; value = "high"; when_name = "disk" } ∷ [];
}

abbrev measured : String → Metric Unit
measured name = record {
  name = name;
  tags = ("env", "test") ∷ [];
  fields = [];
  timestamp = 0;
  metric_type = gauge;
}

tag_all-owed_tag_example :
    (map (λ m. lookup "level" m.tags) (tag_all levels (measured "disk" ∷ measured "cpu" ∷ []))
      ≡ some "high" ∷ some "normal" ∷ [])
    × (map untagged (tag_all levels (measured "disk" ∷ measured "cpu" ∷ []))
        ≡ map untagged (measured "disk" ∷ measured "cpu" ∷ []))
unfolding conditional lookup
tag_all-owed_tag_example =
    tag_all-owed_tag levels "level" (measured "disk" ∷ measured "cpu" ∷ []) (refl, (refl, tt))
