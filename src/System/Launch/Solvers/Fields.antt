-- ===== src/System/Launch/Solvers/Fields.antt =====
-- What the methods of a period check leave as it is.
use dps_pos.Base.{ℕ, ◌+◌, ◌≡◌, refl, ◌==◌, Bool-cases, inl, inr, u64}
use dps_pos.Solver.{Doubles, BaseSolver, Solver}
use dps_pos.Solver.Period.{control_exports}
use dps_pos.Period.Buffer.{ClauseBuffer}
use dps_pos.System.Launch.Solvers.{after_export}

module _ {Double State : Type 0} where
  -- The fields that neither the export nor the new length changes.
  pub record Keeps (v v' : Solver Double State) : Type 0 where
    pub options : v'.options ≡ v.options
    pub thn : v'.thn ≡ v.thn
    pub margin : v'.margin ≡ v.margin
    pub periods : v'.periods ≡ v.periods
    pub num_mem_accesses : v'.num_mem_accesses ≡ v.num_mem_accesses
    pub mem_acc_lim : v'.mem_acc_lim ≡ v.mem_acc_lim
    pub imported_clauses : v'.imported_clauses ≡ v.imported_clauses
    pub imported_unit_clauses : v'.imported_unit_clauses ≡ v.imported_unit_clauses
    pub start_real_time : v'.start_real_time ≡ v.start_real_time
    pub real_time_lim : v'.real_time_lim ≡ v.real_time_lim
    pub mem_use_lim : v'.mem_use_lim ≡ v.mem_use_lim

  abbrev keeps_all : (v : Solver Double State) → Keeps v v
  keeps_all v = record {
    options = refl;
    thn = refl;
    margin = refl;
    periods = refl;
    num_mem_accesses = refl;
    mem_acc_lim = refl;
    imported_clauses = refl;
    imported_unit_clauses = refl;
    start_real_time = refl;
    real_time_lim = refl;
    mem_use_lim = refl;
  }

module _ (D : Doubles) (B : BaseSolver) where
  pub control_exports-Keeps : (v : Solver D.Double B.State) → Keeps v (control_exports D B v)
  unfolding control_exports
  control_exports-Keeps v = elim (Bool-cases (B.get_num_conflicts v.base == v.prev_exp_confs)) [
    | inl same ↦ rw same (keeps_all v)
    | inr other ↦ rw other (record {
      options = refl;
      thn = refl;
      margin = refl;
      periods = refl;
      num_mem_accesses = refl;
      mem_acc_lim = refl;
      imported_clauses = refl;
      imported_unit_clauses = refl;
      start_real_time = refl;
      real_time_lim = refl;
      mem_use_lim = refl;
    })
  ]

  pub after_export-Keeps :
      (v : Solver D.Double B.State) (b : ClauseBuffer) (n : ℕ) → Keeps v (after_export D B v b n)
  unfolding control_exports
  after_export-Keeps v b n = elim (Bool-cases (v.exp_lits_lim == 0)) [
    | inl off ↦ rw off (record {
      options = refl;
      thn = refl;
      margin = refl;
      periods = refl;
      num_mem_accesses = refl;
      mem_acc_lim = refl;
      imported_clauses = refl;
      imported_unit_clauses = refl;
      start_real_time = refl;
      real_time_lim = refl;
      mem_use_lim = refl;
    })
    | inr on ↦
        let v' : Solver D.Double B.State = record v {
          exp_clauses_buf = b;
          num_exported_clauses = u64 (v.num_exported_clauses + n);
        } in
        let k = control_exports-Keeps v' in
        rw on (record {
          options = k.options;
          thn = k.thn;
          margin = k.margin;
          periods = k.periods;
          num_mem_accesses = k.num_mem_accesses;
          mem_acc_lim = k.mem_acc_lim;
          imported_clauses = k.imported_clauses;
          imported_unit_clauses = k.imported_unit_clauses;
          start_real_time = k.start_real_time;
          real_time_lim = k.real_time_lim;
          mem_use_lim = k.mem_use_lim;
        })
  ]
