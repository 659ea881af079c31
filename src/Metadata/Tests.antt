-- ===== src/Metadata/Tests.antt =====
-- Jobs with the values of their metadata as texts, and None as the empty text.
use cronwatch.Prelude.{String, ◌≡◌, refl, none, some, List, [], ◌∷◌, str_eq}
use cronwatch.Dict.{Dict, get, set_item}
use cronwatch.Metadata.{
  Job, metadata_for, meets_all, jobs_matching_metadata, get_annotation, annotate, annotations_for,
}

abbrev job : String → Dict String → Job String
job name meta = record { name = name; metadata = some meta; annotations = none }

abbrev jobs : List (Job String)
jobs =
    job "a" (("team", "x") ∷ ("tier", "1") ∷ [])
    ∷ job "b" (("team", "x") ∷ [])
    ∷ record { name = "c"; metadata = none; annotations = none }
    ∷ []

abbrev criteria : Dict String
criteria = ("team", "x") ∷ ("tier", "1") ∷ []

finds_one :
    jobs_matching_metadata "" str_eq jobs criteria
    ≡ job "a" (("team", "x") ∷ ("tier", "1") ∷ []) ∷ []
unfolding jobs_matching_metadata metadata_for meets_all get
finds_one = refl

annotated : get_annotation (annotate (job "a" []) "note" "n") "note" "" ≡ "n"
unfolding get_annotation annotate annotations_for get set_item
annotated = refl
