-- ===== src/PacketJob.antt =====
-- JunCommon/queue/PacketJob.h: jobs that carry what happened to a session to the handler of that kind
-- of event. Addresses, packets and user data are numbers, and a null pointer is `none`; a call of a
-- virtual function of the handler is a value.
mod Tests
use jun_core_v.Common.{ℕ, ◌≡◌, refl, Option, none, some}
use jun_core_v.ThreadPool.{Job}

pub data PacketJobType : Type 0 where
  recv_packet client_join client_leave connection_request send_complete custom : PacketJobType

pub record SessionInfo : Type 0 where
  pub session_id : ℕ
  pub client_addr : ℕ

abbrev pub no_session : SessionInfo
no_session = record { session_id = 0; client_addr = 0 }

pub record PacketJob : Type 0 where
  pub job_type : PacketJobType
  pub session_info : SessionInfo
  pub packet : Option ℕ
  pub user_data : Option ℕ

unfoldable pub create_recv_job : SessionInfo → Option ℕ → PacketJob
create_recv_job info packet = record {
  job_type = recv_packet;
  session_info = info;
  packet = packet;
  user_data = none;
}

unfoldable pub create_join_job : SessionInfo → ℕ → PacketJob
create_join_job info addr = record {
  job_type = client_join;
  session_info = record info { client_addr = addr };
  packet = none;
  user_data = none;
}

unfoldable pub create_leave_job : SessionInfo → PacketJob
create_leave_job info = record {
  job_type = client_leave;
  session_info = info;
  packet = none;
  user_data = none;
}

unfoldable pub create_connection_request_job : ℕ → Option ℕ → PacketJob
create_connection_request_job addr user_data = record {
  job_type = connection_request;
  session_info = record no_session { client_addr = addr };
  packet = none;
  user_data = user_data;
}

-- `PacketJobHandler`
pub data Handling : Type 0 where
  handle_recv_packet : SessionInfo → Option ℕ → Handling
  handle_client_join : SessionInfo → ℕ → Handling
  handle_client_leave : SessionInfo → Handling
  handle_connection_request : ℕ → Option ℕ → Handling

abbrev handle_type : PacketJobType → PacketJob → Option Handling
handle_type recv_packet job = some (handle_recv_packet job.session_info job.packet)
handle_type client_join job =
    some (handle_client_join job.session_info job.session_info.client_addr)
handle_type client_leave job = some (handle_client_leave job.session_info)
handle_type connection_request job =
    some (handle_connection_request job.session_info.client_addr job.user_data)
handle_type send_complete job = none
handle_type custom job = none

-- `HandlePacketJob`; a job of another type is ignored.
unfoldable pub handle_packet_job : PacketJob → Option Handling
handle_packet_job job = handle_type job.job_type job

-- `ToJob`, with the function that a handler makes of a packet job.
unfoldable pub to_job : (PacketJob → ℕ) → ℕ → PacketJob → Job
to_job handler priority job = record { job_function = some (handler job); priority = priority }

-- Every way to create a job leads to the handler of its kind, with what it was created from.
pub handle-create :
    (info : SessionInfo) (packet user_data : Option ℕ) (addr : ℕ)
    → (handle_packet_job (create_recv_job info packet) ≡ some (handle_recv_packet info packet))
      × (handle_packet_job (create_join_job info addr)
          ≡ some (handle_client_join (record info { client_addr = addr }) addr))
      × (handle_packet_job (create_leave_job info) ≡ some (handle_client_leave info))
      × (handle_packet_job (create_connection_request_job addr user_data)
          ≡ some (handle_connection_request addr user_data))
unfolding handle_packet_job create_recv_job create_join_job create_leave_job
    create_connection_request_job
handle-create info packet user_data addr = (refl, refl, refl, refl)
