-- ===== src/Sandbox/Env.antt =====
-- `envVars` of pkg/sandbox/kubernetes/kubernetes.go, with `strings.Cut` at an equals sign.
use fire_drill.Base.{
  ℕ, ◌≡◌, refl, ap, ◌++◌, ◌∷◌, [], List, Bool, false, ◌==◌, nat_eq, string_eq, if◌then◌else◌, map,
  All,
}

abbrev pub is_equals : ℕ → Bool
is_equals c = c == 61

-- `strings.Cut(s, "=")`: without an equals sign, all of the text and nothing.
unfoldable pub cut : List ℕ → List ℕ × List ℕ
cut [] = ([], [])
cut (c ∷ cs) = let later = cut cs in if is_equals c then ([], cs) else (c ∷ later.0, later.1)

pub record EnvVar : Type 0 where
  pub name : List ℕ
  pub value : List ℕ

abbrev env_var : List ℕ × List ℕ → EnvVar
env_var (k, v) = record { name = k; value = v }

unfoldable pub env_vars : List (List ℕ) → List EnvVar
env_vars [] = []
env_vars (e ∷ es) = env_var (cut e) ∷ env_vars es

-- `k=v`
abbrev pub assignment : EnvVar → List ℕ
assignment e = e.name ++ 61 ∷ e.value

abbrev pub HasNoEquals : EnvVar → Type 0
HasNoEquals e = All (λ c. is_equals c ≡ false) e.name

cut-assignment : (k v : List ℕ) → All (λ c. is_equals c ≡ false) k → cut (k ++ 61 ∷ v) ≡ (k, v)
unfolding cut
cut-assignment [] v h = refl
cut-assignment (c ∷ k) v h = rw h.0 (rw (cut-assignment k v h.1) refl)

-- An environment written out as assignments, to names without an equals sign, is read back.
pub env_vars-assignment :
    (es : List EnvVar) → All HasNoEquals es → env_vars (map assignment es) ≡ es
unfolding env_vars
env_vars-assignment [] h = refl
env_vars-assignment (e ∷ es) h =
    rw (cut-assignment e.name e.value h.0) (ap (λ xs. e ∷ xs) (env_vars-assignment es h.1))
