-- ===== src/Pause/Persistence.antt =====
-- What a store has saved, a new store loads.
use mathlib.Core.List.{append_assoc, append-nil}
use cronwatch.Prelude.{
  String, Bool, ◌≡◌, refl, sym, ap, ◌∙◌, true, false, Option, none, some, List, [], ◌∷◌, ◌++◌, map,
  if◌then◌else◌, All,
}
use cronwatch.Dict.{Dict, get, set_item, pop, contains}
use cronwatch.Dict.Keys.{
  IsUnique, IsUnique-set_item, IsUnique-pop, All-set_item, All-pop, set_item-absent, Apart,
  Apart-set_item, Apart-nil,
}
use cronwatch.Pause.{
  PauseEntry, PauseStore, to_row, from_row, load, load_rows, save, pause, resume, is_paused,
  is_expired,
}
use cronwatch.Pause.Expiry.{Call, paused, resumed, asked, perform, run}

-- Every entry stands under the name of its job.
abbrev IsNamed : String × PauseEntry → Type 0
IsNamed item = item.1.job_name ≡ item.0

abbrev Named : Dict PauseEntry → Type 0
Named = All IsNamed

from_row-to_row : (k : String) (p : PauseEntry) → p.job_name ≡ k → from_row k (to_row p) ≡ p
from_row-to_row k p h = ap (λ j. record p { job_name = j }) (sym h)

load_rows-map :
    (d e : Dict PauseEntry)
    → Named e
    → IsUnique e
    → Apart d e
    → load_rows d (map (λ item. (item.0, to_row item.1)) e) ≡ d ++ e
unfolding load_rows
load_rows-map d [] n u a = sym (append-nil d)
load_rows-map d ((k, p) ∷ e) n u a =
    ap (λ q. load_rows (set_item d k q) (map (λ item. (item.0, to_row item.1)) e))
      (from_row-to_row k p n.0)
    ∙ load_rows-map (set_item d k p) e n.1 u.1 (Apart-set_item d k p e u.0 a.1)
    ∙ ap (λ x. x ++ e) (set_item-absent d k p a.0)
    ∙ append_assoc d ((k, p) ∷ []) e

-- The entries are sound, and the file, where there is one, holds them.
abbrev Saved : PauseStore → Type 0
Saved s = Named s.entries × IsUnique s.entries × ((load s.file).entries ≡ s.entries)

save-Saved : (d : Dict PauseEntry) → Named d → IsUnique d → Saved (save d)
unfolding save load
save-Saved d n u = (n, u, load_rows-map [] d n u (Apart-nil d))

set_item-Saved :
    (s : PauseStore) (k : String) (p : PauseEntry)
    → p.job_name ≡ k
    → Saved s
    → Saved (save (set_item s.entries k p))
set_item-Saved s k p e h =
    save-Saved (set_item s.entries k p) (All-set_item IsNamed s.entries k p e h.0)
      (IsUnique-set_item s.entries k p h.1)

pop-Saved : (s : PauseStore) (k : String) → Saved s → Saved (save (pop s.entries k))
pop-Saved s k h =
    save-Saved (pop s.entries k) (All-pop IsNamed s.entries k h.0) (IsUnique-pop s.entries k h.1)

Saved-if :
    (b : Bool) (t t' : PauseStore × Bool) → Saved t.0 → Saved t'.0 → Saved (if b then t else t').0
Saved-if true t t' h h' = h
Saved-if false t t' h h' = h'

perform-Saved : (s : PauseStore) (c : Call) → Saved s → Saved (perform s c)
unfolding perform pause resume is_paused
perform-Saved s (paused job now reason resume_at) h =
    set_item-Saved s job
      (record { job_name = job; paused_at = now; reason = reason; resume_at = resume_at }) refl h
perform-Saved s (resumed job now) h =
    Saved-if (contains s.entries job) (save (pop s.entries job), true) (s, false)
      (pop-Saved s job h) h
perform-Saved s (asked job now) h = by_entry (get s.entries job)
  where
    by_entry :
        (o : Option PauseEntry)
        → Saved
            (elim o as (λ _. PauseStore × Bool) [
              | none ↦ (s, false)
              | some e ↦ if is_expired e now then (save (pop s.entries job), false) else (s, true)
            ]).0
    by_entry none = h
    by_entry (some e) =
        Saved-if (is_expired e now) (save (pop s.entries job), false) (s, true) (pop-Saved s job h)
          h

-- After any calls of a store that started without a file, a store that is made from the file has
-- the same entries: no call changes the entries without saving them.
pub load-run : (calls : List Call) → (load (run calls).file).entries ≡ (run calls).entries
unfolding run load perform
load-run calls = (saved calls).2
  where
    saved : (calls : List Call) → Saved (run calls)
    saved [] = (tt, tt, refl)
    saved (c ∷ before) = perform-Saved (run before) c (saved before)
