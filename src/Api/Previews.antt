-- ===== src/Api/Previews.antt =====
-- `preview` of apps/api/src/run.controller.ts, after `findRun` has let the user in and has read the run.
pub mod Answers
use code_host.Prelude.{
  ℕ, String, Bool, true, false, Option, none, some, str_eq, leb, ◌≡◌, ◌≤◌, ◌<◌, refl, ap, arith,
  not, ◌||◌, if◌then◌else◌,
}
use code_host.Prelude.Text.{◌++◌}
use code_host.Prelude.Result.{Result, ok, err}
use code_host.Database.Tables.{RunRow}
use code_host.Database.Effects.{Fault, conflict}
use code_host.Config.{PreviewMode, local_preview, ingress, ssh, AppConfig}
use code_host.Config.Rules.{given}
use code_host.Config.Preview.{
  PreviewServiceReference, is_kubernetes_name, build_preview_service_reference,
  parse_preview_service_reference,
}
use code_host.Config.Commands.{
  join_words, port_forward_words, build_preview_port_forward_command,
  build_preview_ssh_tunnel_command,
}

pub data PreviewStatus : Type 0 where
  ready expired : PreviewStatus

pub record PreviewAnswer : Type 0 where
  pub access_mode : PreviewMode
  pub status : PreviewStatus
  pub url : Option String
  pub port_forward_command : Option String
  pub ssh_tunnel_command : Option String
  pub expires_at : ℕ

-- What `new URL` makes of a text: its protocol, and its own text.
abbrev pub UrlParser : Type 0
UrlParser = String → Option (String × String)

abbrev is_http : String → Bool
is_http protocol = str_eq protocol "http:" || str_eq protocol "https:"

unfoldable pub url_answer : ℕ → Bool → Option (String × String) → Option PreviewAnswer
url_answer expires_at is_expired none = none
url_answer expires_at is_expired (some (protocol, href)) =
    if is_http protocol
    then some (record {
      access_mode = ingress;
      status = if is_expired then expired else ready;
      url = if is_expired then none else some href;
      port_forward_command = none;
      ssh_tunnel_command = none;
      expires_at = expires_at;
    })
    else none

abbrev expired_answer : PreviewMode → ℕ → PreviewAnswer
expired_answer mode expires_at = record {
  access_mode = mode;
  status = expired;
  url = none;
  port_forward_command = none;
  ssh_tunnel_command = none;
  expires_at = expires_at;
}

-- The `catch`, which answers an error's message as a conflict.
abbrev answer_or_conflict :
    (String → PreviewAnswer) → Result String String → Result Fault (Option PreviewAnswer)
answer_or_conflict answer (err problem) = err (conflict problem)
answer_or_conflict answer (ok command) = ok (some (answer command))

unfoldable pub local_answer : ℕ → PreviewServiceReference → Result Fault (Option PreviewAnswer)
local_answer expires_at reference =
    answer_or_conflict
      (λ command. record {
        access_mode = local_preview;
        status = ready;
        url = none;
        port_forward_command = some command;
        ssh_tunnel_command = none;
        expires_at = expires_at;
      })
      (build_preview_port_forward_command reference)

abbrev setting_text : Option String → String
setting_text none = ""
setting_text (some value) = value

unfoldable pub tunnel_answer :
    AppConfig → ℕ → PreviewServiceReference → Result Fault (Option PreviewAnswer)
unfolding given
tunnel_answer config expires_at reference =
    if not (given config.preview_ssh_host) || not (given config.preview_ssh_user)
    then err (conflict "SSH Preview is not configured; set PREVIEW_SSH_HOST and PREVIEW_SSH_USER")
    else answer_or_conflict
        (λ command. record {
          access_mode = config.preview_mode;
          status = ready;
          url = none;
          port_forward_command = none;
          ssh_tunnel_command = some command;
          expires_at = expires_at;
        })
        (build_preview_ssh_tunnel_command reference (setting_text config.preview_ssh_host)
          (setting_text config.preview_ssh_user) config.preview_ssh_port)

unfoldable pub service_answer :
    AppConfig → ℕ → Bool → Option PreviewServiceReference → Result Fault (Option PreviewAnswer)
service_answer config expires_at is_expired none =
    err (conflict "stored Preview Service reference is invalid")
service_answer config expires_at is_expired (some reference) =
    if is_expired
    then ok (some (expired_answer config.preview_mode expires_at))
    else elim config.preview_mode [
      | local_preview ↦ local_answer expires_at reference
      | ingress ↦ tunnel_answer config expires_at reference
      | ssh ↦ tunnel_answer config expires_at reference
    ]

module _ (parse_url : UrlParser) (config : AppConfig) (now : ℕ) where
  unfoldable pub stored_answer : String → ℕ → Result Fault (Option PreviewAnswer)
  stored_answer host expires_at = elim config.preview_mode [
    | ingress ↦ ok (url_answer expires_at (leb expires_at now) (parse_url host))
    | local_preview ↦
        service_answer config expires_at (leb expires_at now) (parse_preview_service_reference host)
    | ssh ↦
        service_answer config expires_at (leb expires_at now) (parse_preview_service_reference host)
  ]

  unfoldable pub answer_for : Option String → Option ℕ → Result Fault (Option PreviewAnswer)
  answer_for none expiry = ok none
  answer_for (some host) none = ok none
  answer_for (some host) (some expires_at) =
      if str_eq host "" then ok none else stored_answer host expires_at

  unfoldable pub preview : RunRow → Result Fault (Option PreviewAnswer)
  preview row = answer_for row.preview_host row.preview_expires_at
