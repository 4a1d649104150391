-- ===== src/Schedule/Query.antt =====
-- The first row of an ordered query of `active_playlist` (backend/signage/services.py).
use digital_signage_project.Base.{
  ◌≡◌, inl, inr, Bool, true, false, none, some, List, filter, first_by, arith, In, In-filter,
  In-filter_intro, In-first_by, first_by-none, IsOrder, first_by_best, Bool-cases, subst,
}
use digital_signage_project.Models.{Playlist}
use digital_signage_project.Schedule.{published_desc, schedule_desc, starts_asc}

pub published_desc-IsOrder : IsOrder published_desc
published_desc-IsOrder = record { asym = λ a b h. ground arith; weak = λ a b c h k. ground arith }

pub schedule_desc-IsOrder : IsOrder schedule_desc
schedule_desc-IsOrder = record { asym = λ a b h. ground arith; weak = λ a b c h k. ground arith }

pub starts_asc-IsOrder : IsOrder starts_asc
starts_asc-IsOrder = record { asym = λ a b h. ground arith; weak = λ a b c h k. ground arith }

-- No row of the table passes the filter.
abbrev pub NoneFits : (Playlist → Bool) → List Playlist → Type 0
NoneFits p table = (q : Playlist) → In q table → p q ≡ false

-- `w` is a row of the table that passes the filter, and none that passes comes before it.
pub record IsFirst (before : Playlist → Playlist → Bool) (p : Playlist → Bool)
    (table : List Playlist) (w : Playlist) : Type 0 where
  pub stored : In w table
  pub fits : p w ≡ true
  pub first : (q : Playlist) → In q table → p q ≡ true → before q w ≡ false

pub query-IsFirst :
    (before : Playlist → Playlist → Bool) (laws : IsOrder before) (p : Playlist → Bool)
    (table : List Playlist) {w : Playlist}
    → first_by before (filter p table) ≡ some w
    → IsFirst before p table w
query-IsFirst before laws p table h =
    let i = In-filter p table (In-first_by before (filter p table) h) in
    record {
      stored = i.0;
      fits = i.1;
      first = λ q j e. first_by_best before laws (filter p table) h (In-filter_intro p table j e);
    }

pub query_none :
    (before : Playlist → Playlist → Bool) (p : Playlist → Bool) (table : List Playlist)
    → first_by before (filter p table) ≡ none
    → NoneFits p table
query_none before p table h q i = elim (Bool-cases (p q)) [
  | inl e ↦
      absurd (
        subst (λ l. In q l) (first_by-none before (filter p table) h) (In-filter_intro p table i e))
  | inr e ↦ e
]
