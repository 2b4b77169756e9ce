-- ===== src/Commands/ClassType/Invoke.antt =====
-- src/jdwpy/commands/class_type.py: InvokeMethod, NewInstance.
use jdwpy.Prelude.{All, List, length, ℕ}
use jdwpy.Prelude.Int.{pos, ℤ}
use jdwpy.Spec.{IdSizesSpec, JdwpValue, TaggedObjectId}
use jdwpy.Io.{Platform, Read, Write, for_each, read_list, return, ◌>>=◌, ◌>>◌}
use jdwpy.Io.Ranges.{IsId, IsInt}
use jdwpy.Io.Reader.{read_class_id, read_int, read_method_id, read_tagged_object, read_thread_id}
use jdwpy.Io.Writer.{
  write_class_id, write_int, write_method_id, write_tagged_object, write_thread_id,
}
use jdwpy.Io.Values.{read_value, write_value}
use jdwpy.Io.Codec.{RoundTrip, RoundTrip-All, RoundTrip-last, RoundTrip-seq}
use jdwpy.Io.Primitives.{
  RoundTrip-int, RoundTrip-method_id, RoundTrip-object_id, RoundTrip-reference_type_id,
}
use jdwpy.Io.Fields.{IsTaggedObject, IsValue, RoundTrip-tagged_object, RoundTrip-value}
use jdwpy.Commands.Members.{IsFlag, RoundTrip-invoke_options, read_invoke_options, write_flag}

pub record InvokeMethodResponse : Type 0 where
  pub return_value : JdwpValue
  pub exception : TaggedObjectId

unfoldable pub serialize_invoke_method_response : InvokeMethodResponse → Write
serialize_invoke_method_response c = do write_value c.return_value; write_tagged_object c.exception

unfoldable pub deserialize_invoke_method_response : Read InvokeMethodResponse
deserialize_invoke_method_response = do
  return_value ← read_value
  exception ← read_tagged_object
  return (record { return_value = return_value; exception = exception })

abbrev pub IsInvokeMethodResponse : Platform → IdSizesSpec → InvokeMethodResponse → Type 0
IsInvokeMethodResponse p s c = IsValue p s c.return_value × IsTaggedObject s c.exception

pub RoundTrip-invoke_method_response :
    {p : Platform} {s : IdSizesSpec} {c : InvokeMethodResponse}
    → IsInvokeMethodResponse p s c
    → RoundTrip p s (serialize_invoke_method_response c) deserialize_invoke_method_response c
unfolding serialize_invoke_method_response deserialize_invoke_method_response
RoundTrip-invoke_method_response h =
    RoundTrip-seq _ (RoundTrip-value h.0) (RoundTrip-last _ (RoundTrip-tagged_object h.1))

pub record InvokeMethodCommand : Type 0 where
  pub clazz : ℤ
  pub thread : ℤ
  pub method : ℤ
  pub arguments : List JdwpValue
  pub options : ℕ

unfoldable pub serialize_invoke_method_command : InvokeMethodCommand → Write
serialize_invoke_method_command c = do
  write_class_id c.clazz
  write_thread_id c.thread
  write_method_id c.method
  write_int (pos (length c.arguments))
  for_each c.arguments write_value
  write_flag c.options

unfoldable pub deserialize_invoke_method_command : Read InvokeMethodCommand
deserialize_invoke_method_command = do
  clazz ← read_class_id
  thread ← read_thread_id
  method ← read_method_id
  num ← read_int
  arguments ← read_list num read_value
  options ← read_invoke_options
  return (record {
    clazz = clazz;
    thread = thread;
    method = method;
    arguments = arguments;
    options = options;
  })

abbrev pub IsInvokeMethodCommand : Platform → IdSizesSpec → InvokeMethodCommand → Type 0
IsInvokeMethodCommand p s c =
    IsId s.reference_type_id_struct c.clazz
    × IsId s.object_id_struct c.thread
    × IsId s.method_id_struct c.method
    × IsInt (pos (length c.arguments))
    × All (λ x. IsValue p s x) c.arguments
    × IsFlag c.options

pub RoundTrip-invoke_method_command :
    {p : Platform} {s : IdSizesSpec} {c : InvokeMethodCommand}
    → IsInvokeMethodCommand p s c
    → RoundTrip p s (serialize_invoke_method_command c) deserialize_invoke_method_command c
unfolding serialize_invoke_method_command deserialize_invoke_method_command
RoundTrip-invoke_method_command {p = p} {s = s} {c = c} h =
    RoundTrip-seq _ (RoundTrip-reference_type_id h.0) (
      RoundTrip-seq _ (RoundTrip-object_id h.1) (
        RoundTrip-seq _ (RoundTrip-method_id h.2) (
          RoundTrip-seq _ (RoundTrip-int h.3) (
            RoundTrip-seq _
              (RoundTrip-All write_value read_value (λ x. IsValue p s x) c.arguments
                (λ x h. RoundTrip-value h) h.4)
              (RoundTrip-last _ (RoundTrip-invoke_options h.5))))))

pub record NewInstanceResponse : Type 0 where
  pub new_object : TaggedObjectId
  pub exception : TaggedObjectId

unfoldable pub serialize_new_instance_response : NewInstanceResponse → Write
serialize_new_instance_response c = do
  write_tagged_object c.new_object
  write_tagged_object c.exception

unfoldable pub deserialize_new_instance_response : Read NewInstanceResponse
deserialize_new_instance_response = do
  new_object ← read_tagged_object
  exception ← read_tagged_object
  return (record { new_object = new_object; exception = exception })

abbrev pub IsNewInstanceResponse : Platform → IdSizesSpec → NewInstanceResponse → Type 0
IsNewInstanceResponse p s c = IsTaggedObject s c.new_object × IsTaggedObject s c.exception

pub RoundTrip-new_instance_response :
    {p : Platform} {s : IdSizesSpec} {c : NewInstanceResponse}
    → IsNewInstanceResponse p s c
    → RoundTrip p s (serialize_new_instance_response c) deserialize_new_instance_response c
unfolding serialize_new_instance_response deserialize_new_instance_response
RoundTrip-new_instance_response h =
    RoundTrip-seq _ (RoundTrip-tagged_object h.0) (RoundTrip-last _ (RoundTrip-tagged_object h.1))

pub record NewInstanceCommand : Type 0 where
  pub clazz : ℤ
  pub thread : ℤ
  pub method : ℤ
  pub arguments : List JdwpValue
  pub options : ℕ

unfoldable pub serialize_new_instance_command : NewInstanceCommand → Write
serialize_new_instance_command c = do
  write_class_id c.clazz
  write_thread_id c.thread
  write_method_id c.method
  write_int (pos (length c.arguments))
  for_each c.arguments write_value
  write_flag c.options

unfoldable pub deserialize_new_instance_command : Read NewInstanceCommand
deserialize_new_instance_command = do
  clazz ← read_class_id
  thread ← read_thread_id
  method ← read_method_id
  num ← read_int
  arguments ← read_list num read_value
  options ← read_invoke_options
  return (record {
    clazz = clazz;
    thread = thread;
    method = method;
    arguments = arguments;
    options = options;
  })

abbrev pub IsNewInstanceCommand : Platform → IdSizesSpec → NewInstanceCommand → Type 0
IsNewInstanceCommand p s c =
    IsId s.reference_type_id_struct c.clazz
    × IsId s.object_id_struct c.thread
    × IsId s.method_id_struct c.method
    × IsInt (pos (length c.arguments))
    × All (λ x. IsValue p s x) c.arguments
    × IsFlag c.options

pub RoundTrip-new_instance_command :
    {p : Platform} {s : IdSizesSpec} {c : NewInstanceCommand}
    → IsNewInstanceCommand p s c
    → RoundTrip p s (serialize_new_instance_command c) deserialize_new_instance_command c
unfolding serialize_new_instance_command deserialize_new_instance_command
RoundTrip-new_instance_command {p = p} {s = s} {c = c} h =
    RoundTrip-seq _ (RoundTrip-reference_type_id h.0) (
      RoundTrip-seq _ (RoundTrip-object_id h.1) (
        RoundTrip-seq _ (RoundTrip-method_id h.2) (
          RoundTrip-seq _ (RoundTrip-int h.3) (
            RoundTrip-seq _
              (RoundTrip-All write_value read_value (λ x. IsValue p s x) c.arguments
                (λ x h. RoundTrip-value h) h.4)
              (RoundTrip-last _ (RoundTrip-invoke_options h.5))))))
