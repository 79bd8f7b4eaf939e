-- ===== src/Commands/Pods.antt =====
-- src/main.rs, the subcommands `pod-status` and `pod-logs`, which ask `kubectl`.
use researcher_agent_kube_en.Base.{List, [], ◌∷◌, ◌++◌, Option, none, some, Text, lit}
use researcher_agent_kube_en.Base.Steps.{◌>>=◌, ◌>>◌}
use researcher_agent_kube_en.Base.Strings.{trim}
use researcher_agent_kube_en.Config.{Cli}
use researcher_agent_kube_en.Commands.{Surroundings, process}
use researcher_agent_kube_en.Commands.Console.{M, lift, print}

module _ {F : Type 0} (env : Surroundings F) where
  abbrev pub ask_kubectl : List Text → M env Text
  ask_kubectl args = lift env process (env.kubectl args)

  unfoldable pub pod_status : Cli F → M env (Unit {0})
  pod_status cli = do
    out ←
        ask_kubectl (lit "get" ∷ lit "pods" ∷ lit "-n" ∷ cli.namespace ∷ lit "-o" ∷ lit "wide" ∷ [])
    print env (out ∷ [])

  -- The logs of a pod whose name is known; an empty name is that of no pod.
  unfoldable pub print_logs : Cli F → (tail name : Text) → M env (Unit {0})
  print_logs cli tail name = do
    print env (
        (lit "Fetching logs for pod "
          ++ (name
              ++ (lit " in namespace "
                  ++ (cli.namespace ++ (lit " (tail " ++ (tail ++ lit "):"))))))
        ∷ [])
    out ← ask_kubectl (lit "logs" ∷ lit "-n" ∷ cli.namespace ∷ name ∷ lit "--tail" ∷ tail ∷ [])
    print env (out ∷ [])

  -- The first pod of the namespace, as `kubectl` names it.
  unfoldable pub first_logs : Cli F → (tail name : Text) → M env (Unit {0})
  unfolding print_logs
  first_logs cli tail [] =
      print env
        ((lit "No running researcher pods found in namespace " ++ (cli.namespace ++ lit ".")) ∷ [])
  first_logs cli tail (c ∷ name) = print_logs cli tail (c ∷ name)

  unfoldable pub pod_logs : Cli F → Option Text → Text → M env (Unit {0})
  unfolding first_logs print_logs
  pod_logs cli (some name) tail = print_logs cli tail name
  pod_logs cli none tail = do
    out ← ask_kubectl (
        lit "get"
        ∷ lit "pods"
        ∷ lit "-n"
        ∷ cli.namespace
        ∷ lit "-o"
        ∷ lit "jsonpath={.items[0].metadata.name}"
        ∷ [])
    first_logs cli tail (trim out)
