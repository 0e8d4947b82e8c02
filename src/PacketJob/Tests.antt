-- ===== src/PacketJob/Tests.antt =====
-- PacketJob.h at a concrete job.
use jun_core_v.Common.{◌≡◌, refl, none}
use jun_core_v.PacketJob.{no_session, send_complete, create_leave_job, handle_packet_job, to_job}

ignored :
    handle_packet_job (record (create_leave_job no_session) { job_type = send_complete }) ≡ none
unfolding handle_packet_job create_leave_job
ignored = refl

urgent : (to_job (λ job. 5) 2 (create_leave_job no_session)).priority ≡ 2
unfolding to_job
urgent = refl
