-- ===== src/Transpile/Shapes.antt =====
-- packages/aot-transpiler/src/types.ts: `ResponseShape` and its parts. Bytes are always the UTF-8 form
-- of a text; the model keeps the text, and the emitter encodes it.
use fearless.Base.{ℕ, Str, List}

pub data ChunkFormat : Type 0 where
  raw_format json_string_format url_format : ChunkFormat

pub data InputName : Type 0 where
  method_input path_input url_input ip_input : InputName

-- A read of the request: `ctx.params.X`, `ctx.query.X`, `ctx.headers.X`, or one of the four inputs.
pub data CtxRead : Type 0 where
  param_read query_read header_read : Str → CtxRead
  input_read : InputName → CtxRead

pub data BodyChunk : Type 0 where
  literal : Str → BodyChunk
  read_chunk : CtxRead → ChunkFormat → BodyChunk

pub data ResponseShape : Type 0 where
  static_shape : ℕ → Str → Str → ResponseShape
  dynamic_shape : ℕ → Str → List BodyChunk → ResponseShape
