-- ===== src/Collector/Tagger.antt =====
-- internal/collector/processors/tagger/tagger.go: tags that are added to metrics.
use nodeagentx.Prelude.{
  String, Bool, true, false, ◌&&◌, Option, none, some, List, [], ◌∷◌, map, str_eq, if◌then◌else◌,
  ◌≡◌, refl, ◌∙◌, ap,
}
use nodeagentx.Prelude.Maps.{Map, lookup, copy, lookup-insert, lookup-copy, or_else, Distinct}
use nodeagentx.Collector.Metric.{Metric, add_tag}

pub record Condition : Type 0 where
  pub tag : String
  pub value : String
  pub when_name : String

pub record Tagger : Type 0 where
  pub static_tags : Map String
  pub conditions : List Condition

module _ {F : Type 0} where
  unfoldable pub add_static_tags : Map String → Metric F → Metric F
  unfolding add_tag
  add_static_tags [] m = m
  add_static_tags ((k, v) ∷ tags) m = add_static_tags tags (add_tag k v m)

  unfoldable pub tag_if : Bool → Condition → Metric F → Metric F
  unfolding add_tag
  tag_if true c m = add_tag c.tag c.value m
  tag_if false c m = m

  unfoldable pub add_conditional_tags : List Condition → Metric F → Metric F
  unfolding tag_if
  add_conditional_tags [] m = m
  add_conditional_tags (c ∷ conditions) m =
      add_conditional_tags conditions (tag_if (str_eq m.name c.when_name) c m)

  -- Processor.Apply
  unfoldable pub tag_all : Tagger → List (Metric F) → List (Metric F)
  unfolding add_static_tags add_conditional_tags
  tag_all p [] = []
  tag_all p (m ∷ ms) =
      add_conditional_tags p.conditions (add_static_tags p.static_tags m) ∷ tag_all p ms

-- The value that the last matching condition gives a tag.
unfoldable pub conditional : List Condition → String → String → Option String
conditional [] name key = none
conditional (c ∷ conditions) name key =
    or_else (conditional conditions name key)
      (if str_eq name c.when_name && str_eq c.tag key then some c.value else none)

-- The value that a tag of a metric gets.
abbrev pub owed_tag : {F : Type 0} → Tagger → String → Metric F → Option String
owed_tag p key m =
    or_else (conditional p.conditions m.name key)
      (or_else (lookup key p.static_tags) (lookup key m.tags))

-- A value that is set when `b` holds, under those that are set later.
or_else-set :
    (later : Option String) (b : Bool) (v : String) (before : Option String)
    → or_else later (if b then some v else before)
      ≡ or_else (or_else later (if b then some v else none)) before
or_else-set (some a) b v before = refl
or_else-set none true v before = refl
or_else-set none false v before = refl

module _ {F : Type 0} where
  add_static_tags-copy :
      (tags : Map String) (m : Metric F)
      → add_static_tags tags m ≡ record m { tags = copy m.tags tags }
  unfolding add_static_tags add_tag copy
  add_static_tags-copy [] m = refl
  add_static_tags-copy ((k, v) ∷ tags) m = add_static_tags-copy tags (add_tag k v m)

  after_tag_if :
      (cs : List Condition) (key : String) (b : Bool) (c : Condition) (m : Metric F)
      → lookup key (add_conditional_tags cs (tag_if b c m)).tags
        ≡ or_else (conditional cs (tag_if b c m).name key) (lookup key (tag_if b c m).tags)
      → lookup key (add_conditional_tags cs (tag_if b c m)).tags
        ≡ or_else
            (or_else
              (conditional cs m.name key)
              (if b && str_eq c.tag key then some c.value else none))
            (lookup key m.tags)
  unfolding tag_if add_tag
  after_tag_if cs key true c m h =
      h
      ∙ (ap (or_else (conditional cs m.name key)) (lookup-insert c.tag key c.value m.tags)
          ∙ or_else-set (conditional cs m.name key) (str_eq c.tag key) c.value (lookup key m.tags))
  after_tag_if cs key false c m h =
      h ∙ or_else-set (conditional cs m.name key) false c.value (lookup key m.tags)

  add_conditional_tags-lookup :
      (conditions : List Condition) (key : String) (m : Metric F)
      → lookup key (add_conditional_tags conditions m).tags
        ≡ or_else (conditional conditions m.name key) (lookup key m.tags)
  unfolding add_conditional_tags conditional add_tag
  add_conditional_tags-lookup [] key m = refl
  add_conditional_tags-lookup (c ∷ cs) key m =
      after_tag_if cs key (str_eq m.name c.when_name) c m
        (add_conditional_tags-lookup cs key (tag_if (str_eq m.name c.when_name) c m))

  -- A metric without its tags.
  abbrev pub untagged : Metric F → Metric F
  untagged m = record m { tags = [] }

  tag_if-untagged : (b : Bool) (c : Condition) (m : Metric F) → untagged (tag_if b c m) ≡ untagged m
  unfolding tag_if add_tag
  tag_if-untagged true c m = refl
  tag_if-untagged false c m = refl

  add_conditional_tags-untagged :
      (conditions : List Condition) (m : Metric F)
      → untagged (add_conditional_tags conditions m) ≡ untagged m
  unfolding add_conditional_tags add_tag
  add_conditional_tags-untagged [] m = refl
  add_conditional_tags-untagged (c ∷ cs) m =
      add_conditional_tags-untagged cs (tag_if (str_eq m.name c.when_name) c m)
      ∙ tag_if-untagged (str_eq m.name c.when_name) c m

  -- When no static tag occurs twice: each metric is passed on in its place with all but its tags as
  -- they were, and each tag has the value of the last condition for it that names the metric, or
  -- else the static one, or else the one that it had.
  pub tag_all-owed_tag :
      (p : Tagger) (key : String) (ms : List (Metric F))
      → Distinct p.static_tags
      → (map (λ m. lookup key m.tags) (tag_all p ms) ≡ map (owed_tag p key) ms)
        × (map untagged (tag_all p ms) ≡ map untagged ms)
  unfolding tag_all
  tag_all-owed_tag p key [] d = (refl, refl)
  tag_all-owed_tag p key (m ∷ ms) d =
      let (tags, others) = tag_all-owed_tag p key ms d in
      let static = add_static_tags-copy p.static_tags m in
      let m' = record m { tags = copy m.tags p.static_tags } in
      (
        λ i.
            (ap (λ n. lookup key (add_conditional_tags p.conditions n).tags) static
                ∙ (add_conditional_tags-lookup p.conditions key m'
                    ∙ ap (or_else (conditional p.conditions m.name key))
                        (lookup-copy key m.tags p.static_tags d)))
              i
            ∷ tags i,
        λ i.
            (ap (λ n. untagged (add_conditional_tags p.conditions n)) static
                ∙ add_conditional_tags-untagged p.conditions m')
              i
            ∷ others i,
      )
