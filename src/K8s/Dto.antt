-- ===== src/K8s/Dto.antt =====
-- The wire shapes of crates/nfctl-k8s/src/dto/pipeline.rs. `J` stands for a JSON document, of which
-- only the presence is read.
use nfctl.Common.{ℕ, String, Bool, List, Option}
use nfctl.Common.Int.{ℤ}

pub record ContainerDto : Type 0 where
  pub image : Option String

pub record UdfDto (J : Type 0) : Type 0 where
  pub container : Option ContainerDto
  pub group_by : Option J

pub record ScaleDto : Type 0 where
  pub min : Option ℕ
  pub max : Option ℕ
  pub disabled : Bool

pub record VertexDto (J : Type 0) : Type 0 where
  pub name : String
  pub source : Option J
  pub sink : Option J
  pub udf : Option (UdfDto J)
  pub partitions : Option ℕ
  pub scale : Option ScaleDto

pub record TagsDto : Type 0 where
  pub operator : Option String
  pub values : List String

pub record ConditionsDto : Type 0 where
  pub tags : Option TagsDto

pub record EdgeDto : Type 0 where
  pub from : String
  pub to : String
  pub conditions : Option ConditionsDto
  pub on_full : Option String

pub record LifecycleDto : Type 0 where
  pub desired_phase : Option String
  pub pause_grace_period_seconds : Option ℕ
  pub deletion_grace_period_seconds : Option ℕ
  pub delete_grace_period_seconds : Option ℕ

pub record LimitsDto : Type 0 where
  pub read_batch_size : Option ℕ
  pub buffer_max_length : Option ℕ
  pub buffer_usage_limit : Option ℕ

pub record PipelineSpecDto (J : Type 0) : Type 0 where
  pub inter_step_buffer_service_name : Option String
  pub vertices : List (VertexDto J)
  pub edges : List EdgeDto
  pub lifecycle : LifecycleDto
  pub limits : LimitsDto

pub record ConditionDto : Type 0 where
  pub kind : String
  pub status : String
  pub reason : Option String
  pub message : Option String

pub record PipelineStatusDto : Type 0 where
  pub phase : Option String
  pub message : Option String
  pub conditions : List ConditionDto
  pub observed_generation : Option ℤ
  pub drained_on_pause : Bool
  pub vertex_count : Option ℕ
  pub source_count : Option ℕ
  pub sink_count : Option ℕ
  pub udf_count : Option ℕ
  pub map_udf_count : Option ℕ
  pub reduce_udf_count : Option ℕ
  pub last_updated : Option ℤ
