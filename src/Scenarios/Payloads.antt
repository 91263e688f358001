-- ===== src/Scenarios/Payloads.antt =====
-- The payload of a concrete job.
use code_host.Prelude.{none, some, ◌≡◌, if◌then◌else◌}
use code_host.Workflow.{detect, parse_workflow_job, job_payload}
use code_host.Workflow.Jobs.{is_sendable, parse-payload}
use code_host.Scenarios.Data.{demo_job}

parse-payload_example :
    parse_workflow_job (job_payload (demo_job detect))
    ≡ (if is_sendable (demo_job detect) then some (demo_job detect) else none)
parse-payload_example = parse-payload (demo_job detect)
