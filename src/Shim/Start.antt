-- ===== src/Shim/Start.antt =====
-- src/shim.rs, `from_env`, in a pod that the controller has made: the variables of the manifest, as
-- Kubernetes hands them to the container.
use researcher_agent_kube_en.Base.{
  ◌++◌, some, Option, List, [], ◌∷◌, Text, lit, text_eq, if◌then◌else◌,
}
use researcher_agent_kube_en.Config.{Config}
use researcher_agent_kube_en.Controller.{EnvVar, EnvValue, plain, secret_key_ref}
use researcher_agent_kube_en.Controller.Manifest.{base_env}

abbrev pub resolve : (Text → Text → Option Text) → EnvValue → Option Text
resolve secret (plain s) = some s
resolve secret (secret_key_ref name key optional) = secret name key

-- The variable in the container: the manifest's, before the image's. `secret` reads a key of a secret.
unfoldable pub env_of :
    (Text → Option Text) → (Text → Text → Option Text) → List EnvVar → Text → Option Text
env_of image secret [] name = image name
env_of image secret (v ∷ vs) name =
    let rest = env_of image secret vs name in
    if text_eq v.name name then resolve secret v.value else rest

-- The variables of a manifest with a state.
abbrev with_state : Config → Text → List EnvVar
with_state config json =
    base_env config ++ record { name = lit "INITIAL_STATE"; value = plain json } ∷ []
