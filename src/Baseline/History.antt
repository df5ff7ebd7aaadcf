-- ===== src/Baseline/History.antt =====
-- What saving and deactivating baselines does to the table of services/baseline.py, over time.
use diploma_munka.Prelude.{
  ℕ, ◌+◌, ◌≤◌, ◌≡◌, refl, ap₂, eq_iff, ◌∙◌, ◌⊎◌, inl, inr, true, false, List, [], ◌∷◌, ◌++◌,
  append-nil, String, arith, length, All, Bool-cases,
}
use diploma_munka.Prelude.Python.{PyText}
use diploma_munka.Prelude.Values.{Values, Dict}
use diploma_munka.Prelude.Results.{Result, ok, raise, Result-cases}
use diploma_munka.Baseline.Table.{
  Protocol, BaselineError, Baseline, max_version, deactivate, select_active, normalize_protocol,
  clean_location,
}
use diploma_munka.Baseline.Save.{
  Request, Saved, inserted, save_rows, save_baseline, deactivate_baseline,
}
use diploma_munka.Baseline.Rows.{AreDeactivated, AreRowsOf}
use diploma_munka.Baseline.Places.{
  same_place, IsNew, inserted-IsNew, select_active-append, select_active-deactivate_same,
  select_active-deactivate_other, max_version-append, max_version-deactivate,
  select_active-new_same, select_active-new_other, same_place_apart, same_protocol_refl,
  IsNew-is_at, select_active-place,
}

module _ (py : PyText) (vs : Values) (sql_lower : String → String) where
  -- What a save that returns has done: the rows of its version, one above all there were, are the
  -- active ones of the place, every other place shows what it showed, and the table is the one
  -- before, with the place deactivated, and the rows of the devices behind it.
  pub record IsSaved (r : Request vs) (devices : List (Dict vs)) (before after : List (Baseline vs))
      (s : Saved) : Type 0 where
    pub old : List (Baseline vs)
    pub added : List (Baseline vs)
    pub table : after ≡ old ++ added
    pub deactivated_there : AreDeactivated py vs sql_lower s.location_name s.protocol before old
    pub one_row_each :
        AreRowsOf py vs sql_lower s.location_name s.protocol s.version r devices added
    pub version : s.version ≡ max_version sql_lower s.location_name s.protocol before + 1
    pub counted :
        length (select_active sql_lower s.location_name s.protocol after) ≡ s.saved_entries
    pub fresh :
        All
          (IsNew s.location_name s.protocol s.version)
          (select_active sql_lower s.location_name s.protocol after)
    pub kept : length after ≡ length before + s.saved_entries
    pub others :
        (l : String) (p : Protocol)
        → (same_place sql_lower s.location_name s.protocol l p ≡ true)
          ⊎ (select_active sql_lower l p after ≡ select_active sql_lower l p before)

  -- At every place all active rows are of one version, the last one.
  abbrev pub OneVersion : List (Baseline vs) → Type 0
  OneVersion table =
      (l : String) (p : Protocol)
      → All (λ b. b.version ≡ max_version sql_lower l p table) (select_active sql_lower l p table)

  IsNew-max_version_bound :
      (l : String) (p : Protocol) (n : ℕ) (rows : List (Baseline vs))
      → All (IsNew l p n) rows
      → max_version sql_lower l p rows ≤ n
  unfolding max_version
  IsNew-max_version_bound l p n [] h = omega arith
  IsNew-max_version_bound l p n (b ∷ rows) h =
      rw (IsNew-is_at py vs sql_lower l p n b h.0)
        (omega (arith, h.0.numbered, IsNew-max_version_bound l p n rows h.1))

  IsNew-max_version :
      (l : String) (p : Protocol) (n : ℕ) (b : Baseline vs) (rows : List (Baseline vs))
      → All (IsNew l p n) (b ∷ rows)
      → max_version sql_lower l p (b ∷ rows) ≡ n
  unfolding max_version
  IsNew-max_version l p n b rows h =
      rw (IsNew-is_at py vs sql_lower l p n b h.0)
        (omega (arith, h.0.numbered, IsNew-max_version_bound l p n rows h.1))

  -- The rows that were added at a place after its rows were deactivated.
  added-select_active :
      (l : String) (p : Protocol) (n : ℕ) (rows before : List (Baseline vs))
      → All (IsNew l p n) rows
      → select_active sql_lower l p (deactivate sql_lower l p before ++ rows) ≡ rows
  added-select_active l p n rows before h =
      let same : same_place sql_lower l p l p ≡ true =
        rw ((eq_iff (sql_lower l) (sql_lower l)).1 refl) (same_protocol_refl p) in
      select_active-append sql_lower l p (deactivate sql_lower l p before) rows
      ∙ ap₂ (λ xs ys. xs ++ ys) (select_active-deactivate_same sql_lower l l p p before same)
          (select_active-new_same py vs sql_lower l p n rows h)

  added-other :
      (l l' : String) (p p' : Protocol) (n : ℕ) (rows before : List (Baseline vs))
      → All (IsNew l p n) rows
      → same_place sql_lower l p l' p' ≡ false
      → (select_active sql_lower l' p' (deactivate sql_lower l p before ++ rows)
          ≡ select_active sql_lower l' p' before)
        × (max_version sql_lower l' p' (deactivate sql_lower l p before ++ rows)
            ≡ max_version sql_lower l' p' before)
  added-other l l' p p' n rows before h apart =
      let (none_new, no_version) =
        select_active-new_other py vs sql_lower l l' p p' n rows apart h in
      (
        select_active-append sql_lower l' p' (deactivate sql_lower l p before) rows
            ∙ ap₂ (λ xs ys. xs ++ ys)
                (select_active-deactivate_other sql_lower l' l p' p before
                  (same_place_apart sql_lower l l' p p' apart))
                none_new
            ∙ append-nil _,
        max_version-append sql_lower l' p' (deactivate sql_lower l p before) rows
            ∙ omega (arith, max_version-deactivate sql_lower l' l p' p before, no_version),
      )

  -- A call, and the table after it: an exception leaves the table as it was.
  pub data Call : Type 0 where
    saves : (Protocol → String → List (Dict vs)) → String → String → Request vs → Call
    deactivates : String → String → Call

  abbrev pub table_or :
      {A : Type 0}
      → List (Baseline vs)
      → Result BaselineError (List (Baseline vs) × A)
      → List (Baseline vs)
  table_or table (ok (after, a)) = after
  table_or table (raise e) = table

  unfoldable pub call_one : Call → List (Baseline vs) → List (Baseline vs)
  call_one (saves fetch protocol location r) table =
      table_or table (save_baseline py vs sql_lower fetch protocol location r table)
  call_one (deactivates protocol location) table =
      table_or table (deactivate_baseline py vs sql_lower protocol location table)

  unfoldable pub call_all : List Call → List (Baseline vs) → List (Baseline vs)
  call_all [] table = table
  call_all (c ∷ cs) table = call_all cs (call_one c table)

  deactivate-OneVersion :
      (l : String) (p : Protocol) (table : List (Baseline vs))
      → OneVersion table
      → OneVersion (deactivate sql_lower l p table)
  deactivate-OneVersion l p table h l' p' = elim (Bool-cases (same_place sql_lower l' p' l p)) [
    | inl same ↦ rw (select_active-deactivate_same sql_lower l' l p' p table same) tt
    | inr apart ↦
        rw
          (
            select_active-deactivate_other sql_lower l' l p' p table apart,
            max_version-deactivate sql_lower l' l p' p table,
          )
          (h l' p')
  ]

  IsNew-versions :
      (l : String) (p : Protocol) (n m : ℕ) (rows : List (Baseline vs))
      → n ≡ m
      → All (IsNew l p n) rows
      → All (λ b. b.version ≡ m) rows
  IsNew-versions l p n m [] e h = tt
  IsNew-versions l p n m (b ∷ rows) e h = (h.0.numbered ∙ e, IsNew-versions l p n m rows e h.1)

  added-versions :
      (l : String) (p : Protocol) (rows before : List (Baseline vs))
      → All (IsNew l p (max_version sql_lower l p before + 1)) rows
      → All
          (λ b. b.version ≡ max_version sql_lower l p (deactivate sql_lower l p before ++ rows))
          rows
  added-versions l p [] before new = tt
  added-versions l p (b ∷ rows) before new =
      IsNew-versions l p (max_version sql_lower l p before + 1) _ (b ∷ rows)
        (omega (
          arith,
          max_version-append sql_lower l p (deactivate sql_lower l p before) (b ∷ rows),
          max_version-deactivate sql_lower l l p p before,
          IsNew-max_version l p (max_version sql_lower l p before + 1) b rows new,
        ))
        new

  added-OneVersion :
      (l : String) (p : Protocol) (rows before : List (Baseline vs))
      → All (IsNew l p (max_version sql_lower l p before + 1)) rows
      → OneVersion before
      → OneVersion (deactivate sql_lower l p before ++ rows)
  added-OneVersion l p rows before new h l' p' =
      let after = deactivate sql_lower l p before ++ rows in
      elim (Bool-cases (same_place sql_lower l p l' p')) [
        | inl same ↦
            let (shown, version) = select_active-place py vs sql_lower l l' p p' after same in
            rw
              (
                shown,
                version,
                added-select_active l p (max_version sql_lower l p before + 1) rows before new,
              )
              (added-versions l p rows before new)
        | inr apart ↦
            let (shown, version) =
              added-other l l' p p' (max_version sql_lower l p before + 1) rows before new apart in
            rw (shown, version) (h l' p')
      ]

  save_rows-OneVersion :
      (p : Protocol) (l : String) (r : Request vs) (devices : List (Dict vs))
      (table : List (Baseline vs))
      → OneVersion table
      → OneVersion (table_or table (save_rows py vs sql_lower p l r devices table))
  unfolding save_rows
  save_rows-OneVersion p l r [] table h = h
  save_rows-OneVersion p l r (device ∷ devices) table h =
      let version = max_version sql_lower l p table + 1 in
      added-OneVersion l p (inserted py vs p l version r (device ∷ devices)) table
        (inserted-IsNew py vs sql_lower p l version r (device ∷ devices)) h

  call_one-OneVersion :
      (c : Call) (table : List (Baseline vs)) → OneVersion table → OneVersion (call_one c table)
  unfolding call_one save_baseline deactivate_baseline
  call_one-OneVersion (saves fetch protocol location r) table h =
      elim (Result-cases (normalize_protocol py protocol)) [
        | inr (e, q) ↦ rw q h
        | inl (p, q) ↦ elim (Result-cases (clean_location py location)) [
          | inr (e, q') ↦ rw (q, q') h
          | inl (l, q') ↦ rw (q, q') (save_rows-OneVersion p l r (fetch p l) table h)
        ]
      ]
  call_one-OneVersion (deactivates protocol location) table h =
      elim (Result-cases (normalize_protocol py protocol)) [
        | inr (e, q) ↦ rw q h
        | inl (p, q) ↦ elim (Result-cases (clean_location py location)) [
          | inr (e, q') ↦ rw (q, q') h
          | inl (l, q') ↦ rw (q, q') (deactivate-OneVersion l p table h)
        ]
      ]

  call_all-OneVersion :
      (cs : List Call) (table : List (Baseline vs))
      → OneVersion table
      → OneVersion (call_all cs table)
  unfolding call_all
  call_all-OneVersion [] table h = h
  call_all-OneVersion (c ∷ cs) table h =
      call_all-OneVersion cs (call_one c table) (call_one-OneVersion c table h)

  -- Whatever baselines are saved and deactivated, with or without errors, from an empty table on: at
  -- every location, for each protocol, all active rows are of one version, the highest there is.
  pub call_all-OneVersion_lem :
      (cs : List Call) (l : String) (p : Protocol)
      → All
          (λ b. b.version ≡ max_version sql_lower l p (call_all cs []))
          (select_active sql_lower l p (call_all cs []))
  call_all-OneVersion_lem cs l p =
      call_all-OneVersion cs [] (λ l' p'. unfold select_active in tt) l p
