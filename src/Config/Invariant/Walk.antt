-- ===== src/Config/Invariant/Walk.antt =====
-- The whole walk: what `hm_config_parse` accepts.
use hacman.Config.Events.{
  Event, stream_start, document_start, document_end, shebang, comment, entry_header, sequence_start,
  sequence_end, mapping_start, mapping_end, scalar, block_scalar_start, block_scalar_line,
  block_scalar_end, Events, mapping_end_step, scalar_step, step,
}
use hacman.Config.Invariant.{IsBounded, HasSafeFiles, IsComplete, Inv, Keeps}
use hacman.Config.Invariant.Complete.{finish_project-Inv}
use hacman.Config.Invariant.Files.{block_start_step-Inv, block_line_step-Inv, block_end_step-Inv}
use hacman.Config.Invariant.Steps.{
  entry_header_step-Inv, sequence_start_step-Inv, mapping_start_step-Inv, apply_field-Inv,
  add_sandbox_write_dir-Inv, add_bin_entry-Inv, finish_bin_map-Inv,
}
use hacman.Config.State.{Environment, Cfg}
use hacman.Project.{Project}
use hacman.Base.{ℕ, true, ◌≡◌, arith, Bytes}

module _ (c : Cfg) (h : Inv c) where
  mapping_end_step-Inv : (env : Environment) (line : ℕ) → Keeps (mapping_end_step env c line)
  unfolding mapping_end_step
  mapping_end_step-Inv env line =
      let f = finish_bin_map-Inv c h line in let g = finish_project-Inv env c h in ground arith

  scalar_step-Inv : (key value : Bytes) (line : ℕ) → Keeps (scalar_step c key value line)
  unfolding scalar_step
  scalar_step-Inv key value line = ground (
    arith,
    λ (w : c.inside ≡ true). apply_field-Inv c h w key value line,
    λ (w : c.inside ≡ true). add_sandbox_write_dir-Inv c h w value line,
    λ (w : c.inside ≡ true). add_bin_entry-Inv c h w key value line,
  )

  pub step-Inv : (env : Environment) (buf : Bytes) (e : Event) → Keeps (step env buf c e)
  unfolding step
  step-Inv env buf stream_start = h
  step-Inv env buf (document_start line) = ground arith
  step-Inv env buf document_end = h
  step-Inv env buf shebang = h
  step-Inv env buf comment = h
  step-Inv env buf (entry_header key line) = entry_header_step-Inv c h key line
  step-Inv env buf (sequence_start key line) = sequence_start_step-Inv c h key line
  step-Inv env buf sequence_end = ground arith
  step-Inv env buf (mapping_start line) = mapping_start_step-Inv c h line
  step-Inv env buf (mapping_end line) = mapping_end_step-Inv env line
  step-Inv env buf (scalar key value line) = scalar_step-Inv key value line
  step-Inv env buf (block_scalar_start key line) = block_start_step-Inv c h key line
  step-Inv env buf (block_scalar_line at len) = block_line_step-Inv c h buf at len
  step-Inv env buf block_scalar_end = block_end_step-Inv c h buf

-- What a walk returns.
pub record IsAccepted (p : Project) : Type 0 where
  pub bounded : IsBounded p
  pub safe : HasSafeFiles p
  pub complete : IsComplete p
