-- ===== src/Changelog/Tests.antt =====
-- A job whose command changes and whose tag is dropped.
use cronwatch.Prelude.{String, ◌≡◌, refl, none, List, [], ◌∷◌, ◌++◌}
use cronwatch.Dict.{get}
use cronwatch.Changelog.{JobSnapshot, load, diff_snapshots}
use cronwatch.Changelog.Replay.{replay, diff_snapshots-replay}

abbrev before : JobSnapshot
before = record {
  job_name = "mail";
  captured_at = 10;
  fields = ("command", "send.sh") ∷ ("tag", "web") ∷ [];
}

abbrev after : JobSnapshot
after = record {
  job_name = "mail";
  captured_at = 20;
  fields = ("command", "mail.sh") ∷ ("schedule", "@daily") ∷ [];
}

-- A sort that leaves the names as they are.
abbrev same : List String → List String
same names = names

diff_snapshots-replay_example :
    (load (diff_snapshots same before after none 30).0
      ≡ load none ++ (diff_snapshots same before after none 30).1)
    × (get (replay before.fields (diff_snapshots same before after none 30).1) "tag"
        ≡ get after.fields "tag")
diff_snapshots-replay_example =
    diff_snapshots-replay same before after none 30 "tag" (λ names n. refl)
