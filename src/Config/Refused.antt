-- ===== src/Config/Refused.antt =====
-- When the settings are refused.
use file_forge.Base.{◌≡◌, ◌≢◌, refl, ap, Option, none, some, List, [], ◌∷◌, ◌++◌}
use file_forge.Base.Text.{Text, codes, joined_lines}
use file_forge.Config.{
  ProcessEnv, Config, Zod, Checked, fine, issue, value, issues_of, node_env_of, port_of,
  redis_url_of, max_upload_of, log_level_of, ttl_of, retention_of, interval_of, all_issues,
  assembled, loaded_or_refused, load_config,
}
use file_forge.Config.Bounds.{bound-some}

split_nil : (xs ys : List Text) → xs ++ ys ≡ [] → (xs ≡ []) × (ys ≡ [])
split_nil [] ys e = (refl, e)
split_nil (x ∷ xs) ys e = cc

joined_nil : (xs ys : List Text) → xs ≡ [] → ys ≡ [] → xs ++ ys ≡ []
joined_nil xs ys a b = rw a b

no_issue : {A : Type 0} (x : Checked A) → issues_of x ≡ [] → (a : A) × (value x ≡ some a)
unfolding issues_of
no_issue (fine a) e = (a, refl)
no_issue (issue line) e = cc

value-no_issue : {A : Type 0} (x : Checked A) (a : A) → value x ≡ some a → issues_of x ≡ []
unfolding issues_of
value-no_issue (fine b) a e = refl
value-no_issue (issue line) a e = cc

module _ (Z : Zod) (env : ProcessEnv) where
  assembled-no_issues : all_issues Z env ≡ [] → (c : Config) × (assembled Z env ≡ some c)
  unfolding all_issues assembled
  assembled-no_issues e =
      let (e1, r1) = split_nil (issues_of (node_env_of Z env)) _ e in
      let (e2, r2) = split_nil (issues_of (port_of Z env)) _ r1 in
      let (e3, r3) = split_nil (issues_of (redis_url_of Z env)) _ r2 in
      let (e4, r4) = split_nil (issues_of (max_upload_of Z env)) _ r3 in
      let (e5, r5) = split_nil (issues_of (log_level_of Z env)) _ r4 in
      let (e6, r6) = split_nil (issues_of (ttl_of Z env)) _ r5 in
      let (e7, e8) = split_nil (issues_of (retention_of Z env)) _ r6 in
      let (_, h1) = no_issue (node_env_of Z env) e1 in
      let (_, h2) = no_issue (port_of Z env) e2 in
      let (_, h3) = no_issue (redis_url_of Z env) e3 in
      let (_, h4) = no_issue (max_upload_of Z env) e4 in
      let (_, h5) = no_issue (log_level_of Z env) e5 in
      let (_, h6) = no_issue (ttl_of Z env) e6 in
      let (_, h7) = no_issue (retention_of Z env) e7 in
      let (_, h8) = no_issue (interval_of Z env) e8 in
      simp (h1, h2, h3, h4, h5, h6, h7, h8) (_, refl)

  no_issues-assembled : (c : Config) → assembled Z env ≡ some c → all_issues Z env ≡ []
  unfolding all_issues assembled
  no_issues-assembled c e =
      let (_, h1, e1) = bound-some (value (node_env_of Z env)) _ c e in
      let (_, h2, e2) = bound-some (value (port_of Z env)) _ c e1 in
      let (_, h3, e3) = bound-some (value (redis_url_of Z env)) _ c e2 in
      let (_, h4, e4) = bound-some (value (max_upload_of Z env)) _ c e3 in
      let (_, h5, e5) = bound-some (value (log_level_of Z env)) _ c e4 in
      let (_, h6, e6) = bound-some (value (ttl_of Z env)) _ c e5 in
      let (_, h7, e7) = bound-some (value (retention_of Z env)) _ c e6 in
      let (_, h8, e8) = bound-some (value (interval_of Z env)) _ c e7 in
      joined_nil _ _ (value-no_issue _ _ h1) (
        joined_nil _ _ (value-no_issue _ _ h2) (
          joined_nil _ _ (value-no_issue _ _ h3) (
            joined_nil _ _ (value-no_issue _ _ h4) (
              joined_nil _ _ (value-no_issue _ _ h5) (
                joined_nil _ _ (value-no_issue _ _ h6)
                  (joined_nil _ _ (value-no_issue _ _ h7) (value-no_issue _ _ h8)))))))

  -- The settings are loaded when no variable has an issue; otherwise loading fails, with a message
  -- that has a line for each variable with an issue.
  pub load_config_refused :
      (all_issues Z env ≡ [] → (c : Config) × (load_config Z env ≡ fine c))
      × (all_issues Z env ≢ []
          → load_config Z env
            ≡ issue (codes "Invalid configuration:\n" ++ joined_lines (all_issues Z env)))
  unfolding load_config loaded_or_refused
  load_config_refused = (
    λ e.
        let (c, h) = assembled-no_issues e in
        (c, ap (λ o. loaded_or_refused Z o (all_issues Z env)) h),
    λ some_issue. by_result (assembled Z env) refl some_issue,
  )
    where
      by_result :
          (o : Option Config)
          → assembled Z env ≡ o
          → all_issues Z env ≢ []
          → loaded_or_refused Z o (all_issues Z env)
            ≡ issue (codes "Invalid configuration:\n" ++ joined_lines (all_issues Z env))
      by_result none a k = refl
      by_result (some c) a k = absurd (k (no_issues-assembled c a))
