-- ===== src/Workflow/Labels.antt =====
-- What a user cannot take over on a stage's AgentRun.
use agentic_controller.Prelude.{
  ℕ, ◌+◌, String, ◌≡◌, refl, ◌≢◌, ◌∙◌, Option, none, some, List, [], ◌∷◌, ◌++◌, arith, ◌==◌, eq_iff,
  eq_refl, if◌then◌else◌,
}
use agentic_controller.Api.{Agent, AgentRun, EnvVar, Message, text, count, format1}
use agentic_controller.Workflow.{Stage, WorkflowRun, WorkflowParams, Cluster}
use agentic_controller.Workflow.Creation.{put_label, stage_labels, stage_env, stage_agent_run}

-- a lookup in a map of labels
abbrev pub label_of : String → List (String × String) → Option String
label_of k [] = none
label_of k ((j, v) ∷ m) = if j == k then some v else label_of k m

-- the value that a container gets: of several entries of a name the last one wins
abbrev pub last_value : String → List EnvVar → Option Message
last_value n [] = none
last_value n (e ∷ l) = elim (last_value n l) [
  | some v ↦ some v
  | none ↦ if e.name == n then some e.value else none
]

label_of-put_label_self :
    (k v : String) (m : List (String × String)) → label_of k (put_label k v m) ≡ some v
unfolding put_label
label_of-put_label_self k v [] = ground (arith, eq_refl k)
label_of-put_label_self k v ((j, w) ∷ m) = ground (arith, eq_refl k, label_of-put_label_self k v m)

label_of-put_label_ne :
    (k l v : String) (m : List (String × String))
    → k ≢ l
    → label_of l (put_label k v m) ≡ label_of l m
unfolding put_label
label_of-put_label_ne k l v [] h = ground (arith, eq_iff k l)
label_of-put_label_ne k l v ((j, w) ∷ m) h =
    ground (arith, eq_iff k l, eq_iff j k, eq_iff j l, label_of-put_label_ne k l v m h)

last_value-append :
    (n : String) (a b : List EnvVar) (v : Message)
    → last_value n b ≡ some v
    → last_value n (a ++ b) ≡ some v
last_value-append n [] b v h = h
last_value-append n (e ∷ a) b v h = ground (arith, last_value-append n a b v h)

last_value-append_none :
    (n : String) (a b : List EnvVar)
    → last_value n b ≡ none
    → last_value n (a ++ b) ≡ last_value n a
last_value-append_none n [] b h = h
last_value-append_none n (e ∷ a) b h = rw (last_value-append_none n a b h) refl

-- the guide that a stage's container sees: the workflow's, or where it has none what the user sets
abbrev pub guide_value : Option String → List EnvVar → Option Message
guide_value none env = last_value "KONVEYOR_WORKFLOW_GUIDE" env
guide_value (some g) env = some (text g)

last_value-stage_env :
    (env : List EnvVar) (guide : Option String) (index total : ℕ)
    → last_value "KONVEYOR_WORKFLOW_GUIDE" (stage_env env guide index total) ≡ guide_value guide env
unfolding stage_env
last_value-stage_env env none index total = last_value-append_none _ env _ refl
last_value-stage_env env (some g) index total = last_value-append _ env _ (text g) refl

stage_not_run : ◌≢◌ {A = String} "konveyor.io/stage" "konveyor.io/agentworkflowrun"
stage_not_run = ground (arith, eq_iff "konveyor.io/stage" "konveyor.io/agentworkflowrun")

stage_not_managed : ◌≢◌ {A = String} "konveyor.io/stage" "app.kubernetes.io/managed-by"
stage_not_managed = ground (arith, eq_iff "konveyor.io/stage" "app.kubernetes.io/managed-by")

run_not_managed : ◌≢◌ {A = String} "konveyor.io/agentworkflowrun" "app.kubernetes.io/managed-by"
run_not_managed =
    ground (arith, eq_iff "konveyor.io/agentworkflowrun" "app.kubernetes.io/managed-by")

-- the labels and the variables that belong to the controller
pub record IsMarked (run : WorkflowRun) (stage : Stage) (index total : ℕ) (guide : Option String)
    (child : AgentRun) : Type 0 where
  pub stage_label : label_of "konveyor.io/stage" child.meta.labels ≡ some stage.name
  pub run_label : label_of "konveyor.io/agentworkflowrun" child.meta.labels ≡ some run.meta.name
  pub manager_label :
      label_of "app.kubernetes.io/managed-by" child.meta.labels ≡ some "agentic-controller"
  pub position :
      last_value "KONVEYOR_WORKFLOW_STAGE" child.spec.env ≡ some (format1 "%d" (count (index + 1)))
  pub stage_count :
      last_value "KONVEYOR_WORKFLOW_STAGE_COUNT" child.spec.env ≡ some (format1 "%d" (count total))
  pub workflow_guide :
      last_value "KONVEYOR_WORKFLOW_GUIDE" child.spec.env ≡ guide_value guide run.spec.env

-- Whatever labels and variables the workflow run has: a stage's AgentRun carries the controller's own
-- labels, and its container sees the controller's position of the stage, and the workflow's guide where
-- there is one.
pub stage_agent_run-IsMarked :
    (c : Cluster) (run : WorkflowRun) (stage : Stage) (index total : ℕ) (agent : Agent)
    (params : WorkflowParams) (guide : Option String)
    → IsMarked run stage index total guide
        (stage_agent_run c run stage index total agent params guide)
unfolding stage_agent_run stage_labels stage_env
stage_agent_run-IsMarked c run stage index total agent params guide = record {
  stage_label = label_of-put_label_self "konveyor.io/stage" stage.name _;
  run_label =
      label_of-put_label_ne "konveyor.io/stage" "konveyor.io/agentworkflowrun" stage.name _
        stage_not_run
      ∙ label_of-put_label_self "konveyor.io/agentworkflowrun" run.meta.name _;
  manager_label =
      label_of-put_label_ne "konveyor.io/stage" "app.kubernetes.io/managed-by" stage.name _
        stage_not_managed
      ∙ label_of-put_label_ne "konveyor.io/agentworkflowrun" "app.kubernetes.io/managed-by"
          run.meta.name _ run_not_managed
      ∙ label_of-put_label_self "app.kubernetes.io/managed-by" "agentic-controller" run.meta.labels;
  position = last_value-append _ run.spec.env _ _ (
      last_value-append _
        (elim guide [
          | none ↦ []
          | some g ↦ record { name = "KONVEYOR_WORKFLOW_GUIDE"; value = text g } ∷ []
        ])
        _ _ refl);
  stage_count = last_value-append _ run.spec.env _ _ (
      last_value-append _
        (elim guide [
          | none ↦ []
          | some g ↦ record { name = "KONVEYOR_WORKFLOW_GUIDE"; value = text g } ∷ []
        ])
        _ _ refl);
  workflow_guide = last_value-stage_env run.spec.env guide index total;
}
