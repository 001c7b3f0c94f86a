-- ===== src/Api.antt =====
-- `create_app` (src/agentvm/api/app.py): the application is its title and its routes. FastAPI, which
-- answers by them, is not modelled.
use agent_vm.Base.{List, [], ◌∷◌}
use agent_vm.Python.Dict.{Dict}
use agent_vm.Python.Text.{Text, codes}

pub record Route : Type 0 where
  pub method : Text
  pub path : Text
  pub response : Dict Text Text

pub record App : Type 0 where
  pub title : Text
  pub routes : List Route

abbrev pub health : Dict Text Text
health = (codes "status", codes "ok") ∷ []

abbrev pub create_app : App
create_app = record {
  title = codes "AgentVM";
  routes = record { method = codes "GET"; path = codes "/health"; response = health } ∷ [];
}
